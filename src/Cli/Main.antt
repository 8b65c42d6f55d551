-- ===== src/Cli/Main.antt =====
-- src/main.rs: how the program ends. The commit and the version of the build, and what `substrate_cli`
-- makes of the arguments, are arguments.
use conjugate_poc.Common.{ℕ, List, [], ◌∷◌, Outcome, ok, err, panic}
use conjugate_poc.Inherents.{InherentsCrate}
use conjugate_poc.Service.{ServiceError, Sources}
use conjugate_poc.Cli.{CliError, Ended, Parsed, Commands, Specs, run}

pub record VersionInfo : Type 0 where
  pub name : List ℕ
  pub commit : List ℕ
  pub version : List ℕ
  pub executable_name : List ℕ
  pub author : List ℕ
  pub description : List ℕ
  pub support_url : List ℕ

-- "Conjugatepoc"
abbrev pub name : List ℕ
name = 67 ∷ 111 ∷ 110 ∷ 106 ∷ 117 ∷ 103 ∷ 97 ∷ 116 ∷ 101 ∷ 112 ∷ 111 ∷ 99 ∷ []

-- "conjugatepoc"
abbrev pub executable_name : List ℕ
executable_name = 99 ∷ 111 ∷ 110 ∷ 106 ∷ 117 ∷ 103 ∷ 97 ∷ 116 ∷ 101 ∷ 112 ∷ 111 ∷ 99 ∷ []

-- "Tom <tom2020@gmail.com>"
abbrev pub author : List ℕ
author =
    84 ∷ 111 ∷ 109 ∷ 32 ∷ 60 ∷ 116 ∷ 111 ∷ 109 ∷ 50 ∷ 48 ∷ 50 ∷ 48 ∷ 64 ∷ 103 ∷ 109 ∷ 97 ∷ 105 ∷ 108
    ∷ 46 ∷ 99 ∷ 111 ∷ 109 ∷ 62 ∷ []

-- "Conjugatepoc node implementation"
abbrev pub description : List ℕ
description =
    67 ∷ 111 ∷ 110 ∷ 106 ∷ 117 ∷ 103 ∷ 97 ∷ 116 ∷ 101 ∷ 112 ∷ 111 ∷ 99 ∷ 32 ∷ 110 ∷ 111 ∷ 100 ∷ 101
    ∷ 32 ∷ 105 ∷ 109 ∷ 112 ∷ 108 ∷ 101 ∷ 109 ∷ 101 ∷ 110 ∷ 116 ∷ 97 ∷ 116 ∷ 105 ∷ 111 ∷ 110 ∷ []

-- "https://github.com/IPSE-TEAM/ipse-core/issues"
abbrev pub support_url : List ℕ
support_url =
    104 ∷ 116 ∷ 116 ∷ 112 ∷ 115 ∷ 58 ∷ 47 ∷ 47 ∷ 103 ∷ 105 ∷ 116 ∷ 104 ∷ 117 ∷ 98 ∷ 46 ∷ 99 ∷ 111
    ∷ 109 ∷ 47 ∷ 73 ∷ 80 ∷ 83 ∷ 69 ∷ 45 ∷ 84 ∷ 69 ∷ 65 ∷ 77 ∷ 47 ∷ 105 ∷ 112 ∷ 115 ∷ 101 ∷ 45 ∷ 99
    ∷ 111 ∷ 114 ∷ 101 ∷ 47 ∷ 105 ∷ 115 ∷ 115 ∷ 117 ∷ 101 ∷ 115 ∷ []

unfoldable pub version_info : List ℕ → List ℕ → VersionInfo
version_info commit version = record {
  name = name;
  commit = commit;
  version = version;
  executable_name = executable_name;
  author = author;
  description = description;
  support_url = support_url;
}

-- How the process ends: `main` returns, it exits with a code after the error is printed, or it panics.
pub data ProcessEnd : Type 0 where
  returned : ProcessEnd
  exited : ℕ → ProcessEnd
  panicked : ProcessEnd

unfoldable pub end_of : Outcome CliError (Unit {0}) → ProcessEnd
end_of (ok done) = returned
end_of (err e) = exited 1
end_of panic = panicked

module _ (crate : InherentsCrate) (sources : Sources crate)
    (builder : Outcome ServiceError (Unit {0})) (build : Outcome ServiceError (Unit {0})) where
  unfoldable pub main :
      (VersionInfo → List (List ℕ) → Parsed)
      → Commands crate sources builder build
      → Specs crate sources builder build
      → Outcome CliError (Unit {0})
      → Ended
      → List ℕ
      → List ℕ
      → List (List ℕ)
      → ProcessEnd
  main parse_and_prepare commands load_spec runtime ended commit version args = end_of (
      run crate sources builder build commands load_spec runtime ended
        (parse_and_prepare (version_info commit version) args))
