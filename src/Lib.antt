-- ===== src/Lib.antt =====
-- axor-wrap: a wrap engine for agent tools (package axor_wrap).
--
-- The package scans agent code for tools, writes a manifest for each, compiles the manifests into
-- the configuration of a governor, and runs every tool call through that governor (axor_core). A
-- node attaches to a control plane, whose signed commands steer it; a session ends in a trace.
--
-- Which file models which part:
--   Base, Errors, Value         Python's texts, dicts, integers, exceptions and JSON values, as far
--                               as the source uses them; axor_wrap/errors.py.
--   Plane.Kernel                what axor_wrap/plane/session.py takes from axor_core and from the
--                               package cryptography: a record of parameters.
--   Plane.Session.*             axor_wrap/plane/session.py. State: the dataclass. Apply: `_apply`.
--                               Verify: `_verify` and `apply_delta`. Snapshot: `apply_snapshot`.
--                               Wire: `apply_delta` and `apply_snapshot` of values of any shape, as the
--                               client passes them on. Take: the three `take_pending_*`. Run: the methods as the calls of a
--                               host, in any order. Below these stand the proofs about each.
--   Plane.Admission             axor_wrap/plane/admission.py.
--   Plane.Client.*              axor_wrap/plane/client.py. State: the constructor, `_auth`, `_line`. Spool:
--                               `_load_spool`, `_save_spool`. Telemetry: `_post_telemetry`,
--                               `post_probe_report`. Flush: `flush`, and sequences of flushes and calls
--                               of the host. Frames: `_consume_sse`. Stream: `_dispatch`. Subscription:
--                               `run`. The client moves the session's outbox to the plane, and the
--                               plane's commands to the session.
--   Plane.Bridge                axor_wrap/plane/bridge.py.
--   Detect, Roles               the record of a detected tool of axor_wrap/detect.py; axor_wrap/roles.py.
--   Manifest.*                  axor_wrap/manifest.py: Manifest the builders, Check the validator, Schema
--                               the embedded schema. Compiled: from detected tools over their roles and
--                               manifests to what Compile.Manifests gives the governor. Accepted: from
--                               validated manifests there.
--   Connect.*                   axor_wrap/connect.py. Lab: `LabRuntimeConnector`. Plane: the posture of
--                               `PlaneConnector`.
--   Compile.Manifests           axor_wrap/compile.py: `_expand`, `compile_manifests`; Compile.Kwargs:
--                               `governor_kwargs`. This configures the governor of a toolset. Compile.Yaml:
--                               `governance_yaml`.
--   Governor                    what runtime.py and trace.py take from axor_core: a record of parameters.
--   Runtime.Toolset             axor_wrap/runtime.py: `call`, `callables`, `set_admission`. Below Runtime
--                               stand the proofs on the record, the flag and sessions of many calls.
--   Runtime.Build               the constructor of `WrappedToolset`, `trace`, `wrap_callables`, and
--                               `toolset_for_arm` of axor_wrap/experiment.py.
--   Experiment                  the rest of axor_wrap/experiment.py.
--   Trace.*                     axor_wrap/trace.py. Recorder: `SessionRecorder`. Pairing: `verdict_events`
--                               and `_paired`. Fields: `_expand`, `_normalize`. Ledger: `_Ledger`. Build:
--                               `_decision_of` and the loop of `build_trace`. Document: `build_trace`,
--                               `trial_of`.
--
-- How the model stands to the code:
--   - A method that changes an object returns the new object; one that may raise is an `Exec`, which
--     gives the object back beside the error too, since what was written before a raise stays.
--   - A dict is a list of entries in insertion order; a set of texts is a list read by membership.
--   - Integers are unbounded, as Python's are: a sign over the native numbers.
--   - Texts are lists of characters. Case conversion is that of the ASCII letters; `repr` escapes
--     quotes, backslashes, line breaks and tabs; `int(text)` and `\d` read ASCII digits.
--   - A tool acts on a world of its own; a toolset and that world are one state. A recorded call is
--     known by its index in the recorder.
--   - JSON bodies hold no floats. In `dict(value)` a key that is no text is refused.
--   - A subscription is a list of rounds: a connection, and whether `stop` is set before the pause after
--     it is over. The host calls nothing on the session within a subscription.
--   - What the network answers to each attempt is given, and so is what the host calls while a
--     request is out; times are in milliseconds. A line of the spool's file is known by the message
--     that it holds, which reads back as it was written.
--   - The classes of axor_core's trace events are given by the fields that the bridge uses.
--   - A decimal numeral is written with one round of fuel for each digit, and n + 1 rounds are given
--     for n, which has no more digits than that. The validator of manifests takes fuel for the depth
--     of the schema: schema_fuel is 10, more than the embedded schema has. No other definition takes
--     fuel; the retries of a request count down their attempts, of which there are three.
--
-- Not modelled: the scanner, which reads Python's syntax trees; the command line
-- and the streaming of kernel events, which pass on what the parts above compute; the heartbeat loop and the tasks of a plane connector; network, files and printing;
-- asyncio's scheduling, which shows as the order of the calls of a sequence, and with it flushes of
-- one client that overlap; logging; the wording of most exceptions.
pub mod Base
pub mod Errors
pub mod Value
pub mod Plane
pub mod Compile
pub mod Governor
pub mod Trace
pub mod Runtime
pub mod Connect
pub mod Detect
pub mod Roles
pub mod Manifest
pub mod Experiment
