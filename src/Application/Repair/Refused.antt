-- ===== src/Application/Repair/Refused.antt =====
-- Repair planning of src/text_to_sql/application/repair.py after the validator has refused a text.
