-- ===== src/Plane/Session/Wire/Shaped.antt =====
-- A message of the right shape does what `Plane.Session.Verify` and `Plane.Session.Snapshot` say.
use axor_wrap.Base.{ℤ, Option, none, some, [], ◌∷◌, ◌≡◌, refl, ap, arith}
use axor_wrap.Base.Dict.{Dict, lookup}
use axor_wrap.Errors.{ok}
use axor_wrap.Value.{
  Value, str, arr, obj, of_dict, fields, entries, Items, elements, iterate, Fields,
}
use axor_wrap.Plane.Kernel.{Kernel}
use axor_wrap.Plane.Session.State.{PlaneSession, AppliedEffect}
use axor_wrap.Plane.Session.Apply.{apply}
use axor_wrap.Plane.Session.Verify.{Command, verify, signed_by, message, apply_delta}
use axor_wrap.Plane.Session.Snapshot.{apply_snapshot}
use axor_wrap.Plane.Session.Wire.{
  Delivery, apply_value, verified, verify_delivery, check_signature, pubkey_of, signed_with,
  sig_verifies, wire_message, apply_delivery, conclude_value, check_listed, apply_snapshot_values,
}

abbrev delivered : Command → Delivery
delivered c = record {
  version = c.version;
  delta = of_dict c.delta;
  operator = str c.operator;
  timestamp = str c.timestamp;
  sig = str c.sig;
}

entries-fields : (d : Dict Value) → entries (fields d) ≡ d
unfolding entries fields
entries-fields [] = refl
entries-fields ((k, v) ∷ d) = ap (λ x. (k, v) ∷ x) (entries-fields d)

module _ (kernel : Kernel) where
  signed_with-text :
      (o : Option _) (s : PlaneSession) (c : Command)
      → signed_with kernel o (wire_message kernel s (delivered c)) (str c.sig)
        ≡ ok (signed_by kernel o s c)
  unfolding signed_with sig_verifies wire_message signed_by message
  signed_with-text none s c = refl
  signed_with-text (some key) s c = refl

  verify_delivery-text :
      (s : PlaneSession) (c : Command)
      → verify_delivery kernel s (delivered c) ≡ ok (verify kernel s c)
  unfolding verify_delivery verify check_signature pubkey_of axor_wrap.Value.Show.repr
  verify_delivery-text s c =
      ground (arith, signed_with-text (lookup c.operator s.operator_pubkeys) s c)

  verified-text :
      (o : Option AppliedEffect) (c : Command) (s : PlaneSession)
      → verify kernel s c ≡ o
      → verified kernel (delivered c) (ok o) s ≡ apply_delta kernel c s
  unfolding verified apply_delta apply_value
  verified-text none c s h =
      rw (h, apply_delta) (ap (λ d. apply c.version d s) (entries-fields c.delta))
  verified-text (some e) c s h = rw (h, apply_delta) refl

  apply_delivery-text :
      (c : Command) (s : PlaneSession)
      → apply_delivery kernel (delivered c) s ≡ apply_delta kernel c s
  unfolding apply_delivery
  apply_delivery-text c s =
      rw (verify_delivery-text s c) (verified-text (verify kernel s c) c s refl)

  apply_snapshot_values-dict :
      (version : ℤ) (fs : Fields) (vs : Items) (s : PlaneSession)
      → apply_snapshot_values kernel version (obj fs) (arr vs) s
        ≡ apply_snapshot kernel version (entries fs) (elements vs) s
  unfolding apply_snapshot_values apply_snapshot check_listed conclude_value apply_value iterate
  apply_snapshot_values-dict version fs vs s = ground arith
