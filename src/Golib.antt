-- ===== src/Golib.antt =====
-- The functions of Go's standard library that the relay calls and that its behaviour rests on,
-- written after their documentation: package strings, net.SplitHostPort, base64.StdEncoding,
-- strconv.Atoi. Nothing of the repository is modelled here.
pub mod Strings
pub mod Base64
pub mod Numbers
