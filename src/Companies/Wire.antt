-- ===== src/Companies/Wire.antt =====
-- `CompanyResponse` of app/schemas/company.py and its JSON: a dump writes the serialization aliases,
-- and validation, with no validation alias, looks fields up by their names.
use rooti_server.Base.{ℕ, ◌≡◌, Bool, Option, none, some, String, inl, inr, Option-cases}
use rooti_server.Models.{Company}
use rooti_server.Cache.{Model}
use rooti_server.Cache.Fields.{
  Members, no_member, member, number, text, flag, optional_text, field, as_number, as_text, as_flag,
  as_optional_text, ◌>>=◌,
}

pub record CompanyResponse : Type 0 where
  pub id : ℕ
  pub name : String
  pub location : Option String
  pub use_flag : Bool
  pub image_path : Option String
  pub template_id : Option String
  pub template_data : Option String

-- `CompanyResponse.model_validate(company)`
unfoldable pub response : ℕ → Company → CompanyResponse
response id c = record {
  id = id;
  name = c.name;
  location = c.location;
  use_flag = c.use_flag;
  image_path = c.image_path;
  template_id = c.template_id;
  template_data = c.template_data;
}

abbrev pub dump : CompanyResponse → Members
dump r = member "id" (number r.id) (
    member "name" (text r.name) (
      member "location" (optional_text r.location) (
        member "useFlag" (flag r.use_flag) (
          member "imagePath" (optional_text r.image_path) (
            member "templateId" (optional_text r.template_id)
              (member "templateData" (optional_text r.template_data) no_member))))))

abbrev pub validate : Members → Option CompanyResponse
validate o = do
  id ← as_number (field "id" o)
  name ← as_text (field "name" o)
  location ← as_optional_text (field "location" o)
  use_flag ← as_flag (field "use_flag" o)
  image_path ← as_optional_text (field "image_path" o)
  template_id ← as_optional_text (field "template_id" o)
  template_data ← as_optional_text (field "template_data" o)
  some (record {
    id = id;
    name = name;
    location = location;
    use_flag = use_flag;
    image_path = image_path;
    template_id = template_id;
    template_data = template_data;
  })

-- A dumped company holds "useFlag", and the required field is "use_flag".
pub never_read_back : (r : CompanyResponse) → validate (dump r) ≡ none
never_read_back r = elim (Option-cases r.location) [ inl e ↦ rw e | inr (l, e) ↦ rw e ]

pub validate-dump : (a b : CompanyResponse) → validate (dump a) ≡ some b → b ≡ a
validate-dump a b h = cc (never_read_back a)

instance abbrev pub pydantic : Model CompanyResponse
pydantic = record { dump = dump; validate = validate; validate-dump = validate-dump }
