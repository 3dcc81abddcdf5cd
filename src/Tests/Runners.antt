-- ===== src/Tests/Runners.antt =====
-- The process of internal/controlplane/runner.go at work.
use inferbus.Base.{List, [], arith, false, none, not, refl, suc, true, ◌&&◌, ◌++◌, ◌||◌, ◌∷◌, ◌≡◌}
use inferbus.Base.{nat_eq, string_eq}
use inferbus.Runner.{ctx_done, run}
use inferbus.Runner.Order.{IsOrderly, run-IsOrderly}
use inferbus.Runner.Health.{
  Happening, happen, happen_all, installs, launches, new_health, ok, projector_returns, real_error,
  stops,
}
use inferbus.Runner.Health.Healthy.{breaks, healthy_iff, is_stopped, relay_breaks}

-- A deployment whose OIDC issuer does not answer.
run-IsOrderly_example : IsOrderly (
    run (record {
      stream_fails = false;
      pool_fails = false;
      read_store_fails = false;
      has_usage_reader = true;
      issuer = "https://id";
      verifier_fails = true;
      exit = ctx_done;
      ctx_error = none;
    }))
run-IsOrderly_example = run-IsOrderly (record {
  stream_fails = false;
  pool_fails = false;
  read_store_fails = false;
  has_usage_reader = true;
  issuer = "https://id";
  verifier_fails = true;
  exit = ctx_done;
  ctx_error = none;
})

abbrev before_resync : List Happening
before_resync = launches ∷ installs ∷ projector_returns 1 real_error ∷ stops ∷ []

-- The first generation fails, a resync brings the second up, and that one is being stopped.
healthy_iff_example :
    let q =
      happen_all new_health
        (before_resync ++ (launches ∷ installs ∷ projector_returns 1 real_error ∷ stops ∷ [])) in
    let g = suc (happen_all new_health before_resync).launched in
    let later = projector_returns 1 real_error ∷ stops ∷ [] in
    (ok q ≡ (not (relay_breaks before_resync || relay_breaks later) && not (breaks g later)))
    × (q.running ≡ not (is_stopped later))
unfolding happen_all happen
healthy_iff_example =
    healthy_iff before_resync (projector_returns 1 real_error ∷ stops ∷ []) (omega arith) tt

-- It counts as healthy while nothing runs.
ok_while_stopped : ok (happen_all new_health (launches ∷ installs ∷ stops ∷ [])) ≡ true
unfolding ok happen_all happen
ok_while_stopped = refl
