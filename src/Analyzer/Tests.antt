-- ===== src/Analyzer/Tests.antt =====
-- A spec that is rendered for two directories.
use tenara.Prelude.{◌≡◌, refl, true, [], ◌∷◌, is_ok, pos, Map, put, string_Eq}
use tenara.Bytes.{is_blank}
use tenara.AppSpec.Spec.{validate}
use tenara.Analyzer.{
  ServiceFacts, ServiceDef, MongoEvidence, service_of, result_of, generate, collect,
}
use tenara.Analyzer.Rendered.{read_spec, generated_valid}

abbrev web : ServiceFacts
web = record { runtime = "node"; framework = "next"; port = pos 3000 }

abbrev api : ServiceFacts
api = record { runtime = "go"; framework = "gin"; port = pos 8080 }

abbrev dirs : Map ServiceFacts
dirs = ("web", web) ∷ ("api", api) ∷ []

abbrev services : Map ServiceDef
services = ("web", service_of "web" web) ∷ ("api", service_of "api" api) ∷ []

abbrev mongo : MongoEvidence
mongo = record { found = true; evidence = "mongoose" }

generated_valid_example : is_ok (validate (read_spec (result_of services mongo).spec)) ≡ true
unfolding generate collect put is_blank
generated_valid_example = generated_valid dirs mongo {r = result_of services mongo} refl refl
