-- ===== src/Errors.antt =====
-- The classes of exceptions by which the handlers of the rollover tell failures apart.
-- `client_error` stands for what a request raises, `os_error` for a failed file operation,
-- `storage_error` for a value that SQLite does not bind, and `runtime_error` for a RuntimeError of
-- no other class here.

pub data Exc : Type 0 where
  value_error key_error type_error transaction_error os_error client_error storage_error : Exc
  runtime_error : Exc
