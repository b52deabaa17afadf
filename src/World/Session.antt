-- ===== src/World/Session.antt =====
-- The calls of the session that the services make, on one table of the world.
use rooti_server.Base.{ℕ, Bool, Option, none, some, List}
use rooti_server.Errors.{integrity_error, multiple_results}
use rooti_server.Exec.{ok, err, Exec, gets, modify}
use rooti_server.Sql.{Sql}
use rooti_server.Sql.Query.{no_row, one, multiple, scalar_one_or_none, first}
use rooti_server.World.{Lens}

module _ ⦃sql : Sql⦄ {W R : Type 0} where
  -- `await self.db.get(R, key)`
  abbrev pub db_get : Lens W (sql.Table R) → ℕ → Exec W (Option R)
  db_get l key = gets (λ w. sql.get key (l.view w))

  -- `self.db.add(row)` and `await self.db.flush()`
  abbrev pub add : Lens W (sql.Table R) → R → Exec W ℕ
  add l row w = elim (sql.insert row (l.view w)) [
    | none ↦ (err integrity_error, w)
    | some (key, t) ↦ (ok key, l.put t w)
  ]

  -- Attributes assigned on a loaded row.
  abbrev pub write : Lens W (sql.Table R) → ℕ → R → Exec W (Unit {0})
  write l key row = modify (λ w. l.put (sql.update key row (l.view w)) w)

  -- `await self.db.delete(row)`
  abbrev pub remove : Lens W (sql.Table R) → ℕ → Exec W (Unit {0})
  remove l key = modify (λ w. l.put (sql.delete key (l.view w)) w)

  -- `select(R).where(p)`
  abbrev pub query : Lens W (sql.Table R) → (ℕ → R → Bool) → Exec W (List (ℕ × R))
  query l p = gets (λ w. sql.select p (l.view w))

  -- `(await self.db.execute(select(R).where(p))).first()`
  abbrev pub query_first : Lens W (sql.Table R) → (ℕ → R → Bool) → Exec W (Option (ℕ × R))
  query_first l p = gets (λ w. first (sql.select p (l.view w)))

  -- `(await self.db.execute(select(R).where(p))).scalar_one_or_none()`
  abbrev pub query_one : Lens W (sql.Table R) → (ℕ → R → Bool) → Exec W (Option (ℕ × R))
  query_one l p w = elim (scalar_one_or_none (sql.select p (l.view w))) [
    | no_row ↦ (ok none, w)
    | one row ↦ (ok (some row), w)
    | multiple ↦ (err multiple_results, w)
  ]
