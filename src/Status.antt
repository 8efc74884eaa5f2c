-- ===== src/Status.antt =====
-- The `int` results that the program gives: 0, and -1 or another value that is not 0.
pub data Status : Type 0 where
  success : Status
  failure : Status
