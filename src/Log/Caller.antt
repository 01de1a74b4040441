-- ===== src/Log/Caller.antt =====
-- What the prefix of a message tells, for the functions and methods of the program.
use k8s_athenz_istio_auth.Prelude.{
  ◌≡◌, ◌≢◌, ap, ◌∙◌, ◌∷◌, ◌++◌, Option, none, some, All-append, arith,
}
use k8s_athenz_istio_auth.Prelude.Outcome.{returns}
use k8s_athenz_istio_auth.Prelude.Text.{
  Text, codes, split, split-append, split-Lacks, trim_prefix-append, Lacks,
}
use k8s_athenz_istio_auth.Log.{
  pkg_prefix, file_of, join, last_first, prefix_of, pkg_name_of, caller_info, get_caller_info,
}

-- The name that package runtime gives to a function, or to a method of a receiver, of a package of the
-- program.
abbrev pub runtime_name : Text → Option Text → Text → Text
runtime_name pkg none fn = (pkg_prefix ++ pkg) ++ (b'.' ∷ fn)
runtime_name pkg (some receiver) fn =
    (pkg_prefix ++ pkg) ++ (b'.' ∷ ((b'(' ∷ (receiver ++ codes ")")) ++ (b'.' ∷ fn)))

-- The receiver, if there is one, has no dot.
abbrev pub ReceiverLacks : Option Text → Type 0
ReceiverLacks none = Unit
ReceiverLacks (some receiver) = Lacks b'.' receiver

abbrev host_path : Text → Text
host_path pkg = codes "com/yahoo/k8s-athenz-istio-auth/pkg/" ++ pkg

host_path-Lacks : (pkg : Text) → Lacks b'.' pkg → Lacks b'.' (host_path pkg)
host_path-Lacks pkg h =
    All-append (λ x. x ≢ b'.') (codes "com/yahoo/k8s-athenz-istio-auth/pkg/") pkg (omega arith) h

split-name :
    (pkg rest : Text)
    → Lacks b'.' pkg
    → split ((pkg_prefix ++ pkg) ++ (b'.' ∷ rest)) b'.'
      ≡ codes "github" ∷ host_path pkg ∷ split rest b'.'
split-name pkg rest h =
    split-append (codes "github") b'.' (host_path pkg ++ (b'.' ∷ rest)) (omega arith)
    ∙ ap (λ ps. codes "github" ∷ ps)
        (split-append (host_path pkg) b'.' rest (host_path-Lacks pkg h))

-- The prefix of a message of a function or a method of a package of the program, whose names have no
-- dot, names the package without the common prefix, the file, and the function.
pub get_caller_info-runtime_name :
    (file pkg : Text) (receiver : Option Text) (fn : Text)
    → Lacks b'.' pkg
    → ReceiverLacks receiver
    → Lacks b'.' fn
    → get_caller_info (some (file, runtime_name pkg receiver fn))
      ≡ returns (prefix_of pkg (file_of file) fn)
unfolding get_caller_info caller_info pkg_name_of last_first join
get_caller_info-runtime_name file pkg none fn lp lr lf =
    rw (split-name pkg fn lp, split-Lacks fn b'.' lf)
      (ap (λ p. returns (prefix_of p (file_of file) fn)) (trim_prefix-append pkg_prefix pkg))
get_caller_info-runtime_name file pkg (some receiver) fn lp lr lf =
    rw
      (
        split-name pkg ((b'(' ∷ (receiver ++ codes ")")) ++ (b'.' ∷ fn)) lp,
        split-append (b'(' ∷ (receiver ++ codes ")")) b'.' fn
            (omega arith, All-append (λ x. x ≢ b'.') receiver (codes ")") lr (omega arith)),
        split-Lacks fn b'.' lf,
      )
      (ap (λ p. returns (prefix_of p (file_of file) fn)) (trim_prefix-append pkg_prefix pkg))
