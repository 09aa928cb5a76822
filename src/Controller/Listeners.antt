-- ===== src/Controller/Listeners.antt =====
-- What holds of the listeners and of the calls of StopSMTP at every time, and how changes of one
-- listener keep it.
use postbox.Common.{
  ℕ, zero, suc, ◌≡◌, refl, true, false, Option, none, some, List, [], ◌∷◌, ◌++◌, nat_Eq, string_Eq,
  ◌==◌, if◌then◌else◌, length, ◌⊎◌, inl, inr, arith,
}
use postbox.Common.Map.{Map, AllEntries}
use postbox.Controller.{
  Listener, World, initial, nth, change, Stopper, reading, has_read, seen_running, stopping, closed,
  stopped, refused, read_current, finish,
}

pub nth-append :
    (ls : List Listener) (l : Listener) (j : ℕ)
    → nth j (ls ++ l ∷ []) ≡ (if j == length ls then l else nth j ls)
unfolding nth
nth-append [] l zero = refl
nth-append [] l (suc j) = ground arith
nth-append (x ∷ ls) l zero = ground arith
nth-append (x ∷ ls) l (suc j) = ground (arith, nth-append ls l j)

pub change-cases :
    (f : Listener → Listener) (i j : ℕ) (ls : List Listener)
    → (nth j (change f i ls) ≡ nth j ls) ⊎ (nth j (change f i ls) ≡ f (nth j ls))
unfolding nth change
change-cases f i j [] = inl refl
change-cases f zero zero (l ∷ ls) = inr refl
change-cases f zero (suc j) (l ∷ ls) = inl refl
change-cases f (suc i) zero (l ∷ ls) = inl refl
change-cases f (suc i) (suc j) (l ∷ ls) = change-cases f i j ls

-- The next listener's place is free.
pub done-length : (ls : List Listener) → (nth (length ls) ls).done ≡ false
unfolding nth
done-length [] = refl
done-length (l ∷ ls) = done-length ls

-- Who has been told that a listener stopped was told the truth.
abbrev pub Told : List Listener → Stopper → Type 0
Told ls (stopped i) = (nth i ls).done ≡ true
Told ls _ = Unit

pub record IsValid (w : World) : Type 0 where
  pub alone : (i : ℕ) → (nth i w.listeners).running ≡ true → w.current ≡ some i
  pub ended : (i : ℕ) → (nth i w.listeners).done ≡ true → (nth i w.listeners).running ≡ false
  pub honest : AllEntries (λ t p. Told w.listeners p) w.stoppers

pub initial-IsValid : IsValid initial
unfolding nth
initial-IsValid = record { alone = λ i h. cc; ended = λ i h. refl; honest = tt }

pub Told-read_current : (ls : List Listener) (o : Option ℕ) → Told ls (read_current o)
Told-read_current ls none = tt
Told-read_current ls (some i) = tt

pub AllEntries-mono :
    {P Q : ℕ → Stopper → Type 0}
    → ((t : ℕ) (p : Stopper) → P t p → Q t p)
    → (m : Map ℕ Stopper) → AllEntries P m
    → AllEntries Q m
AllEntries-mono f [] a = tt
AllEntries-mono f ((t, p) ∷ m) a = (f t p a.0, AllEntries-mono f m a.1)

pub Told-mono :
    (ls ls' : List Listener)
    → ((i : ℕ) → (nth i ls).done ≡ true → (nth i ls').done ≡ true)
    → (p : Stopper) → Told ls p
    → Told ls' p
Told-mono ls ls' f (stopped i) h = f i h
Told-mono ls ls' f reading h = tt
Told-mono ls ls' f (has_read i) h = tt
Told-mono ls ls' f (seen_running i) h = tt
Told-mono ls ls' f (stopping i) h = tt
Told-mono ls ls' f (closed i) h = tt
Told-mono ls ls' f refused h = tt

-- A change of a listener that starts nothing and keeps a closed channel closed.
pub record IsCalm (f : Listener → Listener) : Type 0 where
  less : (l : Listener) → (f l).running ≡ true → l.running ≡ true
  kept : (l : Listener) → l.done ≡ true → (f l).done ≡ true
  after :
      (l : Listener)
      → (l.done ≡ true → l.running ≡ false)
      → (f l).done ≡ true
      → (f l).running ≡ false

pub close-IsCalm : IsCalm (λ l. record l { is_open = false })
close-IsCalm = record { less = λ l h. h; kept = λ l h. h; after = λ l h. h }

pub return-IsCalm : IsCalm (λ l. record l { running = false })
return-IsCalm = record { less = λ l h. cc; kept = λ l h. h; after = λ l h k. refl }

pub finish-IsCalm : IsCalm finish
finish-IsCalm = record {
  less = λ l h. ground arith;
  kept = λ l h. ground arith;
  after = λ l h k. ground arith;
}

module _ (f : Listener → Listener) (c : IsCalm f) where
  pub change-IsValid :
      (i : ℕ) (w : World) → IsValid w → IsValid (record w { listeners = change f i w.listeners })
  change-IsValid i w v = record {
    alone = λ j h. elim (change-cases f i j w.listeners) [
      | inl e ↦ v.alone j (rw e at h)
      | inr e ↦ v.alone j (c.less (nth j w.listeners) (rw e at h))
    ];
    ended = λ j h. elim (change-cases f i j w.listeners) [
      | inl e ↦ rw e (v.ended j (rw e at h))
      | inr e ↦ rw e (c.after (nth j w.listeners) (v.ended j) (rw e at h))
    ];
    honest =
        AllEntries-mono
          (λ t p.
            Told-mono w.listeners (change f i w.listeners)
              (λ j h. elim (change-cases f i j w.listeners) [
                | inl e ↦ rw e h
                | inr e ↦ rw e (c.kept (nth j w.listeners) h)
              ])
              p)
          w.stoppers v.honest;
  }
