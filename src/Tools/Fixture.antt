-- ===== src/Tools/Fixture.antt =====
-- A host for the tests: arguments are read as they are decoded, and base64 changes nothing.
use repo_extension.Base.{ℕ, ◌+◌, ◌-◌, ◌*◌, [], ◌∷◌, some}
use repo_extension.Base.Int.{pos}
use repo_extension.Base.Text.{Text, codes}
use repo_extension.Json
use repo_extension.Json.{number, Fields, str_from}
use repo_extension.Tools.Host.{Host}

abbrev digits : ℕ → Text → ℕ
digits n [] = n
digits n (c ∷ s) = digits (n * 10 + (c - 48)) s

abbrev pub host : Host
host = record {
  arg_string = λ args k. str_from args (codes k);
  arg_int = λ args k d. elim (Json.get args (codes k)) [ number n ↦ pos (digits 0 n) | _ ↦ d ];
  encode_base64 = λ s. s;
  decode_base64 = λ s. some s;
  int64_of = λ n. pos (digits 0 n);
  trim_space = λ s. s;
  print_map = λ _. [];
}
