-- ===== src/Go.antt =====
-- What the program uses of Go and its standard library, modelled: texts, decimal numbers, `any`
-- values and `error` values. Nothing here is code of the repository, except the two error types of
-- `internal/k1s/client.go` that `Go.Errors` lists among the errors.
pub mod Text
pub mod Strconv
pub mod Values
pub mod Errors
