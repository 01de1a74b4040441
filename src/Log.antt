-- ===== src/Log.antt =====
-- pkg/log/log.go: the logger, and the prefix of its messages that tells where a call stands.
pub mod Caller
use k8s_athenz_istio_auth.Prelude.{
  ℕ, Bool, true, false, List, [], ◌∷◌, ◌++◌, Option, none, some, ◌==◌, if◌then◌else◌, drop, suc,
}
use k8s_athenz_istio_auth.Prelude.Outcome.{Outcome, returns, panics, bind}
use k8s_athenz_istio_auth.Prelude.Text.{Text, codes, is_empty, split, last_index, trim_prefix}

abbrev pub pkg_prefix : Text
pkg_prefix = codes "github.com/yahoo/k8s-athenz-istio-auth/pkg/"

-- The file of `path.Split`: what follows the last slash.
unfoldable pub file_of : Text → Text
file_of path = elim (last_index path b'/') [ none ↦ path | some i ↦ drop (suc i) path ]

-- `strings.Join(parts, c)` for a text `c` of one character
unfoldable pub join : List Text → ℕ → Text
join [] c = []
join (part ∷ []) c = part
join (part ∷ next ∷ parts) c = part ++ (c ∷ join (next ∷ parts) c)

-- The parts of a name from behind: the name of the function, and what stands before it.
pub last_first : List Text → List Text → List Text
last_first [] out = out
last_first (part ∷ parts) out = last_first parts (part ∷ out)

abbrev pub in_order : List Text → List Text
in_order parts = last_first parts []

abbrev pub prefix_of : Text → Text → Text → Text
prefix_of pkg_name file_name fn_name =
    codes "[" ++ (pkg_name ++ (codes "/" ++ (file_name ++ (codes "] [" ++ (fn_name ++ codes "]")))))

-- The name of the package, from the part before the name of the function and, from behind, the parts
-- before that. The first character of an empty part is out of range.
pub pkg_name_of : Text → List Text → Outcome Text
unfolding last_first join
pkg_name_of [] rest = panics
pkg_name_of (c ∷ part) rest =
    if c == b'('
    then returns (join (in_order rest) b'.')
    else returns (join (in_order ((c ∷ part) ∷ rest)) b'.')

-- `getCallerInfo` from the parts of the name of the function, from behind.
pub caller_info : Text → List Text → Outcome Text
unfolding pkg_name_of trim_prefix
caller_info file_name [] = panics
caller_info file_name (fn_name ∷ []) = returns (prefix_of (codes "???") file_name fn_name)
caller_info file_name (fn_name ∷ full_pkg_name ∷ rest) =
    bind (pkg_name_of full_pkg_name rest)
      λ pkg_name. returns (prefix_of (trim_prefix pkg_name pkg_prefix) file_name fn_name)

-- `getCallerInfo`, on the file and the name of the function that package runtime tells, if it does.
unfoldable pub get_caller_info : Option (Text × Text) → Outcome Text
unfolding caller_info file_of split
get_caller_info none = returns (codes "[???/???] [???]")
get_caller_info (some (file, name)) = caller_info (file_of file) (last_first (split name b'.') [])

-- The methods of the logger that the functions of the package call.
pub data Method : Type 0 where
  debug info print warn warning error fatal panic : Method

-- An argument of a log function: the text of the prefix, or what the caller passes.
pub data Argument (A : Type 0) : Type 0 where
  prefix : Text → Argument A
  value : A → Argument A

-- What the logger is called with: `Debugf` and its like with a format, `Debug` with arguments, and
-- `Debugln` with the arguments of a line.
pub data Call (A : Type 0) : Type 0 where
  formatted : Method → Text → List A → Call A
  plain : Method → List (Argument A) → Call A
  line : Method → List (Argument A) → Call A

module _ {A : Type 0} where
  abbrev values : List A → List (Argument A)
  values [] = []
  values (a ∷ args) = value a ∷ values args

  -- `Debugf`, `Infof`, `Printf`, `Warnf`, `Warningf`, `Errorf`, `Fatalf` and `Panicf`
  unfoldable pub log_format : Method → Option (Text × Text) → Text → List A → Outcome (Call A)
  unfolding get_caller_info
  log_format method caller format args =
      bind (get_caller_info caller)
        λ info. returns (formatted method (info ++ (codes " " ++ format)) args)

  -- `Debug`, `Info`, `Print`, `Warn`, `Warning`, `Error`, `Fatal` and `Panic`
  unfoldable pub log_plain : Method → Option (Text × Text) → List A → Outcome (Call A)
  unfolding get_caller_info
  log_plain method caller args =
      bind (get_caller_info caller)
        λ info. returns (plain method (prefix info ∷ prefix (codes " ") ∷ values args))

  -- `Debugln`, `Infoln`, `Println`, `Warnln`, `Warningln`, `Errorln`, `Fatalln` and `Panicln`
  unfoldable pub log_line : Method → Option (Text × Text) → List A → Outcome (Call A)
  unfolding get_caller_info
  log_line method caller args =
      bind (get_caller_info caller) λ info. returns (line method (prefix info ∷ values args))

-- The logger: its level, and the file with rotation to which it writes beside the standard output.
pub record Logger (L : Type 0) : Type 0 where
  pub level : L
  pub file : Option Text

-- `InitLogger`, with the answer of `logrus.ParseLevel`, the default level, and whether the directory
-- of the file could not be made.
unfoldable pub init_logger :
    {L : Type 0} → (Text → Option L) → L → (Text → Bool) → Text → Text → Logger L
init_logger parse_level info_level mkdir_fails log_file level = record {
  level = elim (parse_level level) [ none ↦ info_level | some parsed ↦ parsed ];
  file = if mkdir_fails log_file then none else if is_empty log_file then none else some log_file;
}
