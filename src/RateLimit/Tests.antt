-- ===== src/RateLimit/Tests.antt =====
-- The limiter on short runs, and the theorems at inputs that meet their hypotheses.
use tun_safe.Base.{List, [], ◌∷◌}
use tun_safe.RateLimit.{new_rate_limit}
use tun_safe.RateLimit.Bins.{
  IsBounded, new-IsBounded, apply_all, apply_all-IsBounded, ask, ask_and_commit, tick, Use,
}

abbrev uses : List Use
uses = ask_and_commit 77 ∷ ask 5 ∷ tick (3, 4) 9 ∷ ask_and_commit 77 ∷ []

apply_all-IsBounded_example : IsBounded (apply_all new_rate_limit uses)
apply_all-IsBounded_example = apply_all-IsBounded new_rate_limit uses new-IsBounded
