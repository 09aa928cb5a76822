-- ===== src/MemStore/Listings.antt =====
-- The queries of memstore.go that return lists: what stands in them, in which order, and how many.
use postbox.Common.{
  ℕ, String, ◌≡◌, ◌≢◌, ◌≤◌, refl, ◌∙◌, Bool, true, ◌&&◌, List, [], ◌∷◌, string_Eq, arith, length,
  take, select, count, All, All-select, count-select, length-take-le, take_all, ltb,
  string_le-total, string_le_trans, if◌then◌else◌,
}
use postbox.Common.Map.{Map}
use postbox.Common.Sort.{sort_by, Sorted, IsTotal, Sorted-sort_by, count-sort_by, All-sort_by}
use postbox.Store.{user_matches_filters}
use postbox.MemStore.{
  MemStore, values, is_due, retry_le, user_le, domain_le, list_users, search_users,
  list_pending_delivery_jobs,
}

retry_le-IsTotal : IsTotal retry_le
retry_le-IsTotal = record { total = λ a b h. ground arith; trans = λ a b c h k. ground arith }

user_le-IsTotal : IsTotal user_le
user_le-IsTotal = record {
  total = λ a b h. string_le-total a.email b.email h;
  trans = λ a b c h k. string_le_trans a.email b.email c.email h k;
}

domain_le-IsTotal : IsTotal domain_le
domain_le-IsTotal = record {
  total = λ a b h. string_le-total a.name b.name h;
  trans = λ a b c h k. string_le_trans a.name b.name c.name h k;
}

-- What a listing by a filter and an order must be: every element passes the filter, the elements
-- stand in order, and each is there as often as the store holds it.
pub record IsListing {A : Type 0} (test : A → Bool) (le : A → A → Bool) (stored out : List A)
    : Type 0 where
  pub passing : All (λ x. test x ≡ true) out
  pub sorted : Sorted le out
  pub complete : (p : A → Bool) → count p out ≡ count (λ x. test x && p x) stored

listing :
    {A : Type 0} (test : A → Bool) (le : A → A → Bool) (stored : List A)
    → IsTotal le
    → IsListing test le stored (sort_by le (select test stored))
listing test le stored t = record {
  passing = All-sort_by le (λ x. test x ≡ true) (select test stored) (All-select test stored);
  sorted = Sorted-sort_by le t (select test stored);
  complete = λ p. count-sort_by le p (select test stored) ∙ count-select test p stored;
}

-- The slice at the end of `ListPendingDeliveryJobs`.
cut :
    {A : Type 0} (limit : ℕ) (out : List A)
    → limit ≢ 0
    → let res = if ltb 0 limit && ltb limit (length out) then take limit out else out in
      (res ≡ take limit out) × (length res ≤ limit)
cut limit out h = ground (arith, take_all limit out, length-take-le limit out)

module _ (before : ℕ) (s : MemStore) where
  -- With no limit, the pending jobs are those that are due, by their retry time.
  pub list_pending_delivery_jobs-IsListing :
      IsListing
        (is_due before)
        retry_le
        (values s.delivery_jobs)
        (list_pending_delivery_jobs before 0 s)
  unfolding list_pending_delivery_jobs
  list_pending_delivery_jobs-IsListing =
      listing (is_due before) retry_le (values s.delivery_jobs) retry_le-IsTotal

  -- A limit cuts that list to its first jobs, at most as many as the limit.
  pub list_pending_delivery_jobs-take :
      (limit : ℕ)
      → limit ≢ 0
      → (list_pending_delivery_jobs before limit s
          ≡ take limit (list_pending_delivery_jobs before 0 s))
        × (length (list_pending_delivery_jobs before limit s) ≤ limit)
  unfolding list_pending_delivery_jobs
  list_pending_delivery_jobs-take limit h =
      cut limit (sort_by retry_le (select (is_due before) (values s.delivery_jobs))) h

-- A search returns the users that match every filter, by their address.
pub search_users-IsListing :
    (filters : Map String String) (s : MemStore)
    → IsListing
        (λ u. user_matches_filters u filters)
        user_le
        (values s.users)
        (search_users filters s)
unfolding search_users
search_users-IsListing filters s =
    listing (λ u. user_matches_filters u filters) user_le (values s.users) user_le-IsTotal

select_all : {A : Type 0} (xs : List A) → select (λ x. true) xs ≡ xs
select_all [] = refl
select_all (x ∷ xs) = rw (select_all xs)

-- A search with no filter returns what `ListUsers` returns.
pub search_users-nil : (s : MemStore) → search_users [] s ≡ list_users s
unfolding search_users list_users user_matches_filters
search_users-nil s = rw (select_all (values s.users))
