-- ===== src/Workers/Tests.antt =====
-- The theorems on workers for jin, who is hired by the first company.
use rooti_server.Base.{ℕ, ◌≡◌, refl, false, some, [], ◌∷◌}
use rooti_server.Errors.{business, worker_already_hired}
use rooti_server.Exec.{err}
use rooti_server.World.{World}
use rooti_server.Workers.{hire, fire}
use rooti_server.Workers.Hiring.{MappedOnce, new_mapping, fired_cannot_return}
use rooti_server.Samples.{sql, redis, settings, office}

abbrev hired : World
hired = record office { company_workers = some (new_mapping 0 0) ∷ [] }

hired-MappedOnce : MappedOnce hired
hired-MappedOnce company worker ℕ.zero ℕ.zero r s gr pr gs ps = refl
hired-MappedOnce company worker (ℕ.suc j) k r s gr pr gs ps = cc
hired-MappedOnce company worker ℕ.zero (ℕ.suc k) r s gr pr gs ps = cc

fired_cannot_return_example :
    let w' = (fire 0 hired).1 in
    (sql.get 0 w'.company_workers ≡ some (record (new_mapping 0 0) { is_hired = false }))
    × (hire 0 0 w' ≡ (err (business worker_already_hired), w'))
fired_cannot_return_example = fired_cannot_return 0 (new_mapping 0 0) hired refl
