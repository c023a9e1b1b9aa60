-- ===== src/Roles/Classes.antt =====
-- roles.py: which class `infer_effect` gives to a tool.
