-- ===== src/Companies/Refinement.antt =====
-- The service with its cache does what the service without one does.
use rooti_server.Base.{
  ℕ, ◌+◌, ◌≡◌, refl, Bool, true, false, Option, none, List, [], ◌∷◌, String, arith,
}
use rooti_server.Exec.{Result}
use rooti_server.Sql.{Sql}
use rooti_server.Redis.{Redis}
use rooti_server.World.{World}
use rooti_server.Pagination.{PageParams, Page}
use rooti_server.Security.{PrincipalDetails}
use rooti_server.Cache.{Json, Model, cache_key}
use rooti_server.Companies.Wire.{CompanyResponse}
use rooti_server.Companies.Coherence.{IsCoherent}
use rooti_server.Companies.{
  CompanyCreateRequest, CompanyUpdateRequest, search, create, update, deactivate, get,
}
use rooti_server.Companies.Agreement.{
  with_store, get-Agree, update-Agree, deactivate-Agree, create-Agree,
}

-- The calls of the service, and time that passes.
pub data Call : Type 0 where
  get_company : ℕ → Call
  list_companies : Option String → PageParams → Call
  create_company : CompanyCreateRequest → Option PrincipalDetails → Call
  update_company : ℕ → CompanyUpdateRequest → Option PrincipalDetails → Call
  deactivate_company : ℕ → Option PrincipalDetails → Call
  wait : ℕ → Call

pub data Reply : Type 0 where
  one_company : Result CompanyResponse → Reply
  page_of : Result (Page CompanyResponse) → Reply
  nothing : Result (Unit {0}) → Reply
  waited : Reply

module _ ⦃sql : Sql⦄ ⦃redis : Redis⦄ ⦃json : Json⦄ ⦃model : Model CompanyResponse⦄ where
  abbrev pub call : Bool → Call → World → Reply × World
  call cached (get_company id) w = let (r, w') = get cached id w in (one_company r, w')
  call cached (list_companies keyword params) w =
      let (r, w') = search keyword params w in (page_of r, w')
  call cached (create_company req actor) w = let (r, w') = create req actor w in (one_company r, w')
  call cached (update_company id req actor) w =
      let (r, w') = update cached id req actor w in (one_company r, w')
  call cached (deactivate_company id actor) w =
      let (r, w') = deactivate cached id actor w in (nothing r, w')
  call cached (wait seconds) w = (waited, record w { now = w.now + seconds })

  abbrev pub calls : Bool → List Call → World → List Reply × World
  calls cached [] w = ([], w)
  calls cached (c ∷ rest) w =
      let (reply, w') = call cached c w in
      let (replies, w'') = calls cached rest w' in (reply ∷ replies, w'')

  call-Agree :
      (c : Call) (w : World) (s : redis.Store)
      → IsCoherent w
      → (call false c (with_store s w) ≡ ((call true c w).0, with_store s (call true c w).1))
        × IsCoherent (call true c w).1
  unfolding search
  call-Agree (get_company id) w s coherent =
      let (a, b, c) = get-Agree w s id coherent in (ground arith, c)
  call-Agree (list_companies keyword params) w s coherent = (refl, coherent)
  call-Agree (create_company req actor) w s coherent =
      let (a, b, c) = create-Agree w s req actor coherent in (ground arith, c)
  call-Agree (update_company id req actor) w s coherent =
      let (a, b, c) = update-Agree w s id req actor coherent in (ground arith, c)
  call-Agree (deactivate_company id actor) w s coherent =
      let (a, b, c) = deactivate-Agree w s id actor coherent in (ground arith, c)
  call-Agree (wait seconds) w s coherent = (refl, coherent)

  calls-Agree :
      (cs : List Call) (w : World) (s : redis.Store)
      → IsCoherent w
      → calls false cs (with_store s w) ≡ ((calls true cs w).0, with_store s (calls true cs w).1)
  calls-Agree [] w s coherent = refl
  calls-Agree (c ∷ cs) w s coherent =
      let (e, next) = call-Agree c w s coherent in
      let ih = calls-Agree cs (call true c w).1 s next in ground arith

  -- From a store without company entries, and whatever model class is cached, if what it reads back
  -- from its own dump is what was dumped: any sequence of calls and waits gives the same replies and
  -- leaves the same tables and clock through the cache as without one.
  pub calls_refine :
      (cs : List Call) (w : World)
      → ((id later : ℕ) → redis.get (cache_key "company" id) later w.store ≡ none)
      → ((calls true cs w).0 ≡ (calls false cs w).0)
        × (with_store w.store (calls true cs w).1 ≡ (calls false cs w).1)
  calls_refine cs w empty =
      let e = calls-Agree cs w w.store (λ id later raw r kept. cc (empty id later)) in
      (ground arith, ground arith)
