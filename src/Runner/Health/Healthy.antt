-- ===== src/Runner/Health/Healthy.antt =====
-- When the process of internal/controlplane/runner.go is healthy.
use inferbus.Base.{
  Bool, List, Option, [], ap, arith, false, not, refl, subst, suc, sym, true, ℕ, ◌&&◌, ◌++◌, ◌<◌,
  ◌==◌, ◌||◌, ◌∙◌, ◌∷◌, ◌≡◌, ◌≤◌,
}
use inferbus.Base.{nat_eq}
use mathlib.Core.List.{append_assoc}
use inferbus.Runner.Health.{
  CanHappen, Happening, Process, cancelled, clean, contains, happen, happen_all, installs, is_real,
  launches, new_health, ok, projector_returns, real_error, relay_returns, resync, stops,
}

-- Whether the relay, or a projector of the generation `g`, returns a real error.
abbrev pub relay_breaks : List Happening → Bool
relay_breaks [] = false
relay_breaks (relay_returns e ∷ hs) = is_real e || relay_breaks hs
relay_breaks (h ∷ hs) = relay_breaks hs

abbrev pub breaks : ℕ → List Happening → Bool
breaks g [] = false
breaks g (projector_returns k e ∷ hs) = (g == k && is_real e) || breaks g hs
breaks g (h ∷ hs) = breaks g hs

abbrev pub is_stopped : List Happening → Bool
is_stopped [] = false
is_stopped (stops ∷ hs) = true
is_stopped (h ∷ hs) = is_stopped hs

-- No projectors are brought up.
abbrev pub IsSteady : List Happening → Type 0
IsSteady [] = Unit {0}
IsSteady (launches ∷ hs) = ⊥
IsSteady (installs ∷ hs) = ⊥
IsSteady (h ∷ hs) = IsSteady hs

happen_all-append :
    (p : Process) (xs ys : List Happening)
    → happen_all p (xs ++ ys) ≡ happen_all (happen_all p xs) ys
unfolding happen_all
happen_all-append p [] ys = refl
happen_all-append p (x ∷ xs) ys = happen_all-append (happen p x) xs ys

CanHappen-append :
    (p : Process) (xs ys : List Happening)
    → CanHappen p (xs ++ ys)
    → CanHappen p xs × CanHappen (happen_all p xs) ys
unfolding happen_all
CanHappen-append p [] ys c = (tt, c)
CanHappen-append p (relay_returns e ∷ xs) ys c =
    CanHappen-append (happen p (relay_returns e)) xs ys c
CanHappen-append p (projector_returns g e ∷ xs) ys c =
    let (l, r) = CanHappen-append (happen p (projector_returns g e)) xs ys c.1 in ((c.0, l), r)
CanHappen-append p (stops ∷ xs) ys c = CanHappen-append (happen p stops) xs ys c
CanHappen-append p (launches ∷ xs) ys c = CanHappen-append (happen p launches) xs ys c
CanHappen-append p (installs ∷ xs) ys c = CanHappen-append (happen p installs) xs ys c

-- The channels that are closed are those of generations that were launched.
Launched : ℕ → List ℕ → Type 0
Launched n [] = Unit {0}
Launched n (g ∷ gs) = ((0 < g) × (g ≤ n)) × Launched n gs

weaken-Launched : (n m : ℕ) (gs : List ℕ) → n ≤ m → Launched n gs → Launched m gs
unfolding Launched
weaken-Launched n m [] le l = tt
weaken-Launched n m (g ∷ gs) le l =
    ((l.0.0, omega (arith, le, l.0.1)), weaken-Launched n m gs le l.1)

contains-Launched : (n : ℕ) (gs : List ℕ) → Launched n gs → contains (suc n) gs ≡ false
unfolding Launched contains
contains-Launched n [] l = refl
contains-Launched n (g ∷ gs) l = ground (arith, l.0, contains-Launched n gs l.1)

happen_all-Launched :
    (p : Process) (hs : List Happening)
    → CanHappen p hs
    → Launched p.launched p.closed
    → Launched (happen_all p hs).launched (happen_all p hs).closed
unfolding happen_all happen Launched
happen_all-Launched p [] c l = l
happen_all-Launched p (relay_returns e ∷ hs) c l =
    happen_all-Launched (happen p (relay_returns e)) hs c l
happen_all-Launched p (projector_returns g real_error ∷ hs) c l =
    happen_all-Launched (happen p (projector_returns g real_error)) hs c.1 (c.0, l)
happen_all-Launched p (projector_returns g cancelled ∷ hs) c l =
    happen_all-Launched (happen p (projector_returns g cancelled)) hs c.1 l
happen_all-Launched p (projector_returns g clean ∷ hs) c l =
    happen_all-Launched (happen p (projector_returns g clean)) hs c.1 l
happen_all-Launched p (stops ∷ hs) c l = happen_all-Launched (happen p stops) hs c l
happen_all-Launched p (launches ∷ hs) c l =
    happen_all-Launched (happen p launches) hs c
      (weaken-Launched p.launched (suc p.launched) p.closed (omega arith) l)
happen_all-Launched p (installs ∷ hs) c l = happen_all-Launched (happen p installs) hs c l

relay_failed-happen_all :
    (p : Process) (hs : List Happening)
    → (happen_all p hs).relay_failed ≡ (p.relay_failed || relay_breaks hs)
unfolding happen_all happen
relay_failed-happen_all p [] = ground arith
relay_failed-happen_all p (relay_returns e ∷ hs) =
    ground (arith, relay_failed-happen_all (happen p (relay_returns e)) hs)
relay_failed-happen_all p (projector_returns g e ∷ hs) =
    relay_failed-happen_all (happen p (projector_returns g e)) hs
relay_failed-happen_all p (stops ∷ hs) = relay_failed-happen_all (happen p stops) hs
relay_failed-happen_all p (launches ∷ hs) = relay_failed-happen_all (happen p launches) hs
relay_failed-happen_all p (installs ∷ hs) = relay_failed-happen_all (happen p installs) hs

-- While no projectors are brought up.
steady :
    (p : Process) (g : ℕ) (hs : List Happening)
    → IsSteady hs
    → let q = happen_all p hs in
      (contains g q.closed ≡ (contains g p.closed || breaks g hs))
      × (q.installed ≡ p.installed)
      × (q.running ≡ (p.running && not (is_stopped hs)))
unfolding happen_all happen contains
steady p g [] st = ground arith
steady p g (relay_returns e ∷ hs) st = steady (happen p (relay_returns e)) g hs st
steady p g (projector_returns k e ∷ hs) st =
    ground (arith, steady (happen p (projector_returns k e)) g hs st)
steady p g (stops ∷ hs) st = ground (arith, steady (happen p stops) g hs st)
steady p g (launches ∷ hs) st = absurd st
steady p g (installs ∷ hs) st = absurd st

none_yet : Launched 0 []
unfolding Launched
none_yet = tt

-- Once projectors have been brought up, by Run or by a resync, and until the next ones are, the
-- process is healthy exactly if the relay has never returned a real error and no projector of this
-- generation has; what became of earlier generations, also later, does not count. Nor does it count
-- that the projectors have been stopped for a resync.
pub healthy_iff :
    (hs later : List Happening)
    → CanHappen new_health (hs ++ (launches ∷ installs ∷ later))
    → IsSteady later
    → let q = happen_all new_health (hs ++ (launches ∷ installs ∷ later)) in
      let g = suc (happen_all new_health hs).launched in
      (ok q ≡ (not (relay_breaks hs || relay_breaks later) && not (breaks g later)))
      × (q.running ≡ not (is_stopped later))
unfolding ok happen_all happen
healthy_iff hs later c st =
    let p = happen_all new_health hs in
    let (before, then_all) = CanHappen-append new_health hs (launches ∷ installs ∷ later) c in
    let up = happen (happen p launches) installs in
    let (closed, installed, running) = steady up (suc p.launched) later st in
    rw (happen_all-append new_health hs (launches ∷ installs ∷ later)) (
      ground (
        arith,
        closed,
        installed,
        running,
        relay_failed-happen_all up later,
        relay_failed-happen_all new_health hs,
        contains-Launched p.launched p.closed (happen_all-Launched new_health hs before none_yet),
      ))

-- Every resync ends with projectors that count as healthy, unless the relay has failed, whatever
-- ResyncKV returns and whatever happens meanwhile.
pub ok-resync :
    {E : Type 0} (before during : List Happening) (resync_err : Option E)
    → CanHappen new_health (before ++ (resync during resync_err).0)
    → ok (happen_all new_health (before ++ (resync during resync_err).0))
      ≡ not (relay_breaks (before ++ stops ∷ during))
unfolding resync
ok-resync before during resync_err c =
    let tail = launches ∷ installs ∷ [] in
    let e : before ++ (stops ∷ (during ++ tail)) ≡ (before ++ stops ∷ during) ++ tail =
      sym (append_assoc before (stops ∷ during) tail) in
    let (h, running) =
      healthy_iff (before ++ stops ∷ during) [] (subst (CanHappen new_health) e c) tt in
    ap (λ hs. ok (happen_all new_health hs)) e ∙ h ∙ ground arith
