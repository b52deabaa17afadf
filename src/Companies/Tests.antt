-- ===== src/Companies/Tests.antt =====
-- The theorems on companies for an office with two of them.
use rooti_server.Base.{◌≡◌, refl, true, false, none, some, [], ◌∷◌, List}
use rooti_server.Cache.Sample.{json}
use rooti_server.Companies.{CompanyUpdateRequest, get}
use rooti_server.Companies.Wire.{pydantic}
use rooti_server.Companies.Coherence.{hit}
use rooti_server.Companies.Refinement.{Call, get_company, update_company, wait, calls, calls_refine}
use rooti_server.Companies.Agreement.{with_store}
use rooti_server.Companies.Misses.{get-misses}
use rooti_server.Samples.{sql, redis, office, company}

abbrev request : CompanyUpdateRequest
request = record {
  name = some "acme2";
  location = none;
  image_path = none;
  template_id = none;
  template_data = none;
}

abbrev asked : List Call
asked = get_company 0 ∷ update_company 0 request none ∷ wait 700 ∷ get_company 0 ∷ []

calls_refine_example :
    ((calls true asked office).0 ≡ (calls false asked office).0)
    × (with_store office.store (calls true asked office).1 ≡ (calls false asked office).1)
calls_refine_example = calls_refine asked office (λ id later. refl)

get-misses_example : hit (record (get true 0 office).1 { now = 1100 }) 0 ≡ none
get-misses_example = get-misses 0 (company "acme") office 1100 refl refl
