-- ===== src/Tests/Sqlite.antt =====
-- The theorems on the SQLite store, with an encoding of metadata that marks each character.
use Prim.Native.Char.{Char, code}
use postbox.Common.{
  String, false, none, some, List, [], ◌∷◌, ◌≡◌, refl, ap, ◌∙◌, ◌==◌, nat_Eq, string_Eq, pair_Eq,
  if◌then◌else◌, ok, err,
}
use postbox.Common.Map.{Map, get, put}
use postbox.MemStore
use postbox.MemStore.{new, save_domain}
use postbox.MemStore.Trace.{Write, node, domain, user, new_job, writes, write, writes-IsValid}
use postbox.Sqlite.{Tables, new_tables, unique_violation}
use postbox.Sqlite.Users.{Json, IsCodec}
use postbox.Sqlite
use postbox.Sqlite.Encoded.{encoded, other_default}
use postbox.Sqlite.Writes.{writes_tables}
use postbox.Sqlite.Refines.{ReadsAlike, writes_tables-ReadsAlike}
use postbox.Sqlite.Defaults.{save_domain-differs}
use postbox.Tests.{node_a, history, stored, home, away, ann, job}

-- A text with a mark before each character, and two at its end.
unfoldable marked : String → String → String
marked String.[] rest = String.◌∷◌ "." (String.◌∷◌ "." rest)
marked (String.◌∷◌ c s) rest = String.◌∷◌ "x" (String.◌∷◌ c (marked s rest))

abbrev onto_first : Char → List String → List String
onto_first c [] = String.◌∷◌ c "" ∷ []
onto_first c (s ∷ ss) = String.◌∷◌ c s ∷ ss

unfoldable unmarked : String → List String
unmarked String.[] = []
unmarked (String.◌∷◌ d String.[]) = []
unmarked (String.◌∷◌ d (String.◌∷◌ c t)) =
    let rest = unmarked t in if code d == b'.' then "" ∷ rest else onto_first c rest

unmarked-marked : (s t : String) → unmarked (marked s t) ≡ s ∷ unmarked t
unfolding marked unmarked
unmarked-marked String.[] t = refl
unmarked-marked (String.◌∷◌ c s) t = ap (onto_first c) (unmarked-marked s t)

unfoldable marshal : Map String String → String
unfolding marked
marshal [] = ""
marshal ((k, v) ∷ m) = marked k (marked v (marshal m))

unfoldable pairs : List String → Map String String
pairs [] = []
pairs (k ∷ []) = []
pairs (k ∷ v ∷ rest) = (k, v) ∷ pairs rest

abbrev json : Json
json = record { marshal = marshal; unmarshal = λ t. some (pairs (unmarked t)) }

pairs-marshal : (m : Map String String) → pairs (unmarked (marshal m)) ≡ m
unfolding marshal pairs
pairs-marshal [] = unfold unmarked in refl
pairs-marshal ((k, v) ∷ m) =
    ap pairs
      (unmarked-marked k (marked v (marshal m)) ∙ ap (λ t. k ∷ t) (unmarked-marked v (marshal m)))
    ∙ ap (λ t. (k, v) ∷ t) (pairs-marshal m)

json-IsCodec : IsCodec json
json-IsCodec m = (m, ap some (pairs-marshal m), λ k. refl)

-- The default is written once.
abbrev one_default : List Write
one_default =
    node node_a
    ∷ domain home
    ∷ domain (record away { is_default = false })
    ∷ user ann
    ∷ new_job 10 job
    ∷ []

reads_example :
    ReadsAlike json (writes_tables json 99 one_default new_tables) (writes one_default new)
unfolding write MemStore.save_node save_domain MemStore.clear_default other_default new put get
reads_example =
    writes_tables-ReadsAlike json json-IsCodec 99 one_default
      (tt, (((λ e. cc), refl), (((λ e. cc), refl), (((λ e. cc), (λ e. cc)), (tt, tt)))))

-- `stored` has another default.
differs_example :
    (Sqlite.save_domain none home (encoded json stored)
      ≡ (encoded json stored, err unique_violation))
    × (MemStore.get_default_domain (MemStore.save_domain home stored).0 ≡ ok home)
unfolding write writes MemStore.save_user MemStore.save_delivery_job MemStore.save_node save_domain
    MemStore.clear_default other_default new put get
differs_example =
    save_domain-differs json home stored (λ e. cc) refl (writes-IsValid history).domains_valid refl
