-- ===== src/Tests/Workqueue.antt =====
-- A queue that counts as the documentation of client-go says, for the examples about the workers.
use k8s_athenz_istio_auth.Prelude.{
  ℕ, suc, ◌≡◌, refl, ◌∙◌, List, [], ◌∷◌, ◌++◌, Option, none, some, arith, if◌then◌else◌,
}
use k8s_athenz_istio_auth.Prelude.Text.{same_iff}
use k8s_athenz_istio_auth.Prelude.Keyed.{Keyed, lookup, insert, lookup-insert}
use k8s_athenz_istio_auth.Queue.{
  Queued, string_key, foreign_key, same_queued, Workqueue, CountsRequeues,
}

-- What waits, and the counts of the keys and of the other object.
pub record Listed : Type 0 where
  pub waiting : List Queued
  pub counts : Keyed ℕ
  pub foreign : ℕ

abbrev or_zero : Option ℕ → ℕ
or_zero none = 0
or_zero (some n) = n

abbrev count_of : Listed → Queued → ℕ
count_of q (string_key k) = or_zero (lookup q.counts k)
count_of q foreign_key = q.foreign

abbrev set_count : Listed → Queued → ℕ → Listed
set_count q (string_key k) n = record q { counts = insert q.counts k n }
set_count q foreign_key n = record q { foreign = n }

abbrev add_to : Listed → Queued → Listed
add_to q k = record q { waiting = q.waiting ++ (k ∷ []) }

abbrev first_of : List Queued → Listed → Option (Queued × Listed)
first_of [] q = none
first_of (k ∷ ks) q = some (k, record q { waiting = ks })

abbrev pub listed : Workqueue Listed
listed = record {
  add = add_to;
  get = λ q. first_of q.waiting q;
  finish = λ q k. q;
  forget = λ q k. set_count q k 0;
  add_rate_limited = λ q k. add_to (set_count q k (suc (count_of q k))) k;
  num_requeues = count_of;
}

get_keeps :
    (ks : List Queued) (q q' : Listed) (j k : Queued)
    → first_of ks q ≡ some (j, q')
    → count_of q' k ≡ count_of q k
get_keeps [] q q' j k h = cc
get_keeps (i ∷ ks) q q' j (string_key k) h = ground arith
get_keeps (i ∷ ks) q q' j foreign_key h = ground arith

set_count_lem :
    (q : Listed) (j k : Queued) (n : ℕ)
    → count_of (set_count q j n) k ≡ (if same_queued j k then n else count_of q k)
set_count_lem q (string_key j) (string_key k) n = ground (arith, lookup-insert q.counts j k n)
set_count_lem q (string_key j) foreign_key n = refl
set_count_lem q foreign_key (string_key k) n = refl
set_count_lem q foreign_key foreign_key n = refl

add_keeps : (q : Listed) (j k : Queued) → count_of (add_to q j) k ≡ count_of q k
add_keeps q j (string_key k) = refl
add_keeps q j foreign_key = refl

same_count :
    (q : Listed) (j k : Queued)
    → (if same_queued j k then suc (count_of q j) else count_of q k)
      ≡ (if same_queued j k then suc (count_of q k) else count_of q k)
same_count q (string_key j) (string_key k) = ground (arith, same_iff j k)
same_count q (string_key j) foreign_key = refl
same_count q foreign_key (string_key k) = refl
same_count q foreign_key foreign_key = refl

pub listed-CountsRequeues : CountsRequeues listed
listed-CountsRequeues = record {
  add_keeps = add_keeps;
  get_keeps = λ q q' j k h. get_keeps q.waiting q q' j k h;
  finish_keeps = λ q j k. refl;
  forgets = λ q j k. set_count_lem q j k 0;
  counts = λ q j k.
      add_keeps (set_count q j (suc (count_of q j))) j k
      ∙ set_count_lem q j k (suc (count_of q j))
      ∙ same_count q j k;
}
