-- ===== src/Controller/OneListener.antt =====
-- However calls interleave, one listener runs, and a stopped one does not.
use postbox.Common.{
  ℕ, ◌≡◌, refl, sym, ◌∙◌, true, false, Option, none, some, List, [], ◌∷◌, ◌++◌, nat_Eq, string_Eq,
  ◌==◌, length, inl, inr, Result, ok, err, arith, Bool-cases, nat_eq_iff,
}
use mathlib.Core.Option.{some-injective}
use postbox.Common.Map.{get, put, AllEntries-put, AllEntries-get}
use postbox.Controller.{
  Listener, ControlError, fresh, World, initial, nth, Stopper, reading, has_read, seen_running,
  stopping, closed, stopped, refused, start_with, keep_started, is_running, stop_next, go_on,
  finish, Event, start_call, stop_call, stop_goes_on, serve_returns, done_closes, step, start_smtp,
  start_lmtp, smtp_start, lmtp_start, Control, Act, on_smtp, on_lmtp, act, acts, start_server,
  start_lmtp_server,
}
use postbox.Controller.Listeners.{
  nth-append, done-length, Told, IsValid, initial-IsValid, Told-read_current, AllEntries-mono,
  Told-mono, close-IsCalm, return-IsCalm, finish-IsCalm, change-IsValid,
}

module _ {Args : Type 0} (start : Args → Listener → Listener × Result ControlError (Unit {0})) where
  -- A start that succeeds leaves the channel of the new listener open.
  abbrev StartIsFresh : Type 0
  StartIsFresh = (a : Args) → (start a fresh).0.done ≡ false

  idle :
      (w : World) → IsValid w → is_running w ≡ false → (i : ℕ) → (nth i w.listeners).running ≡ false
  idle w v h i = elim (Bool-cases (nth i w.listeners).running) [
    | inl e ↦ let q : (nth i w.listeners).running ≡ false = rw (v.alone i e) at h in q
    | inr e ↦ e
  ]

  keep_started-IsValid :
      (r : Listener × Result ControlError (Unit {0})) (w : World)
      → r.0.done ≡ false
      → IsValid w
      → is_running w ≡ false
      → IsValid (keep_started r w).0
  keep_started-IsValid (l, ok x) w d v h = record {
    alone = λ j k.
        let n = length w.listeners in
        elim (Bool-cases (j == n)) [
          | inl e ↦ rw ((nat_eq_iff j n).0 e) refl
          | inr e ↦
              let q : (nth j w.listeners).running ≡ true =
                rw (nth-append w.listeners l j, e) at k in
              absurd (ground (arith, idle w v h j))
        ];
    ended = λ j k. elim (Bool-cases (j == length w.listeners)) [
      | inl e ↦
          let q : l.done ≡ true = rw (nth-append w.listeners l j, e) at k in
          absurd (ground (arith, d))
      | inr e ↦
          rw (nth-append w.listeners l j, e) (v.ended j (rw (nth-append w.listeners l j, e) at k))
    ];
    honest =
        AllEntries-mono
          (λ t p.
            Told-mono w.listeners (w.listeners ++ l ∷ [])
              (λ j k. elim (Bool-cases (j == length w.listeners)) [
                | inl e ↦ absurd (
                    ground
                      (arith, k, done-length w.listeners, (nat_eq_iff j (length w.listeners)).0 e))
                | inr e ↦ rw (nth-append w.listeners l j, e) k
              ])
              p)
          w.stoppers v.honest;
  }
  keep_started-IsValid (l, err e) w d v h = v

  start_with-IsValid :
      StartIsFresh → (a : Args) (w : World) → IsValid w → IsValid (start_with (start a) w).0
  unfolding start_with
  start_with-IsValid f a w v = elim (Bool-cases (is_running w)) [
    | inl e ↦ rw e v
    | inr e ↦ rw e (keep_started-IsValid (start a fresh) w (f a) v e)
  ]

  stop_next-IsValid :
      (p : Stopper) (w : World)
      → IsValid w
      → Told w.listeners p
      → IsValid (stop_next p w).0 × Told (stop_next p w).0.listeners (stop_next p w).1
  unfolding stop_next
  stop_next-IsValid reading w v h = (v, Told-read_current w.listeners w.current)
  stop_next-IsValid (has_read i) w v h = elim (Bool-cases (nth i w.listeners).running) [
    | inl e ↦ rw e (v, tt)
    | inr e ↦ rw e (v, tt)
  ]
  stop_next-IsValid (seen_running i) w v h = elim (Bool-cases (nth i w.listeners).running) [
    | inl e ↦ rw e (v, tt)
    | inr e ↦ rw e (v, tt)
  ]
  stop_next-IsValid (stopping i) w v h =
      (change-IsValid (λ l. record l { is_open = false }) close-IsCalm i w v, tt)
  stop_next-IsValid (closed i) w v h = elim (Bool-cases (nth i w.listeners).done) [
    | inl e ↦ rw e (v, e)
    | inr e ↦ rw e (v, tt)
  ]
  stop_next-IsValid (stopped i) w v h = (v, h)
  stop_next-IsValid refused w v h = (v, tt)

  stoppers-IsValid :
      (t : ℕ) (p : Stopper) (w : World)
      → IsValid w
      → Told w.listeners p
      → IsValid (record w { stoppers = put t p w.stoppers })
  stoppers-IsValid t p w v h = record {
    alone = v.alone;
    ended = v.ended;
    honest = AllEntries-put (λ t p. Told w.listeners p) t p w.stoppers h v.honest;
  }

  go_on-IsValid :
      (t : ℕ) (o : Option Stopper) (w : World)
      → IsValid w
      → get t w.stoppers ≡ o
      → IsValid (go_on t o w)
  go_on-IsValid t none w v e = v
  go_on-IsValid t (some p) w v e =
      let (v', h) =
        stop_next-IsValid p w v
          (AllEntries-get (λ t p. Told w.listeners p) t w.stoppers v.honest e) in
      stoppers-IsValid t (stop_next p w).1 (stop_next p w).0 v' h

  step-IsValid : StartIsFresh → (e : Event Args) (w : World) → IsValid w → IsValid (step start e w)
  unfolding step
  step-IsValid f (start_call a) w v = start_with-IsValid f a w v
  step-IsValid f (stop_call t) w v = stoppers-IsValid t reading w v tt
  step-IsValid f (stop_goes_on t) w v = go_on-IsValid t (get t w.stoppers) w v refl
  step-IsValid f (serve_returns i) w v =
      change-IsValid (λ l. record l { running = false }) return-IsCalm i w v
  step-IsValid f (done_closes i) w v = change-IsValid finish finish-IsCalm i w v

start_smtp-StartIsFresh : StartIsFresh start_smtp
unfolding start_smtp start_server
start_smtp-StartIsFresh (smtp_start cfg loads binds) = ground arith

start_lmtp-StartIsFresh : StartIsFresh start_lmtp
unfolding start_lmtp start_lmtp_server
start_lmtp-StartIsFresh (lmtp_start cfg binds permits) = ground arith

record ControlIsValid (c : Control) : Type 0 where
  smtp : IsValid c.smtp
  lmtp : IsValid c.lmtp

act-ControlIsValid : (a : Act) (c : Control) → ControlIsValid c → ControlIsValid (act a c)
unfolding act
act-ControlIsValid (on_smtp e) c v = record {
  smtp = step-IsValid start_smtp start_smtp-StartIsFresh e c.smtp v.smtp;
  lmtp = v.lmtp;
}
act-ControlIsValid (on_lmtp e) c v = record {
  smtp = v.smtp;
  lmtp = step-IsValid start_lmtp start_lmtp-StartIsFresh e c.lmtp v.lmtp;
}

acts-ControlIsValid :
    (steps : List Act) (c : Control) → ControlIsValid c → ControlIsValid (acts steps c)
unfolding acts
acts-ControlIsValid [] c v = v
acts-ControlIsValid (a ∷ rest) c v = acts-ControlIsValid rest (act a c) (act-ControlIsValid a c v)

-- No two listeners run, and none for which a caller was told that it stopped.
abbrev pub AtMostOne : World → Type 0
AtMostOne w =
    ((i j : ℕ) → (nth i w.listeners).running ≡ true → (nth j w.listeners).running ≡ true → i ≡ j)
    × ((t i : ℕ) → get t w.stoppers ≡ some (stopped i) → (nth i w.listeners).running ≡ false)

IsValid-AtMostOne : (w : World) → IsValid w → AtMostOne w
IsValid-AtMostOne w v = (
  λ i j h k. some-injective _ _ (sym (v.alone i h) ∙ v.alone j k),
  λ t i h. v.ended i (AllEntries-get (λ t p. Told w.listeners p) t w.stoppers v.honest h),
)

-- From a new controller, whatever starts, stops and steps of the listeners' goroutines interleave, at
-- most one SMTP listener and one LMTP listener run, and a listener for which a call of StopSMTP or
-- StopLMTP returned from its wait does not run.
pub acts-AtMostOne :
    (steps : List Act)
    → let c = acts steps (record { smtp = initial; lmtp = initial }) in
      AtMostOne c.smtp × AtMostOne c.lmtp
acts-AtMostOne steps =
    let v =
      acts-ControlIsValid steps (record { smtp = initial; lmtp = initial })
        (record { smtp = initial-IsValid; lmtp = initial-IsValid }) in
    (IsValid-AtMostOne _ v.smtp, IsValid-AtMostOne _ v.lmtp)
