-- ===== src/Tests/QueryTests.antt =====
-- Statements, plans and GET queries over a small collection (go/internal/query).
use knirvbase.Base.{ℕ, String, ◌≡◌, refl, true, false, some, List, [], ◌∷◌, ltb, arith, ◌↔◌, ◌⊎◌}
use knirvbase.Base.Int.{pos}
use knirvbase.GoStrings.{is_space, fields, join, trim_space, is_space}
use knirvbase.Call.{done}
use knirvbase.Types.{entry_type_memory}
use knirvbase.Value.{Document, str, obj, field, no_fields}
use knirvbase.Index.{Index, btree, btree_index, gin}
use knirvbase.IndexManager.{Indexes, get_index, get_indexes_for_collection, not_found}
use knirvbase.Query.{Query, query_get}
use knirvbase.Query.Parse.{parse_query, parse_delete}
use knirvbase.Query.Parsed.{parsed, out_of_range}
use knirvbase.Query.RoundTrip.{create_index, statement_text, query_of, parse_query-statement_text}
use knirvbase.Query.Words.{fields-join, fields-trim_space}
use knirvbase.Query.Clauses.{Condition, parse_delete_panics}
use knirvbase.Query.Execute.{
  Collection, matches_operator, plan_of, optimizer_of, execute_get, index_failed,
}
use knirvbase.Query.Results.{execute_get-index_failed}
use knirvbase.Optimizer.{QueryOptimizer, candidates, optimize, new_query_optimizer, can_use_index}
use knirvbase.GoMap.{lookup, insert}
use knirvbase.Value.Print.{sprint}
use knirvbase.Optimizer.Choice.{Priced}
use knirvbase.Optimizer.Plan.{FullScan, IndexScan, CheapestPlan, optimize_plans, optimize_cheapest}
use knirvbase.Tests.WholeFloats.{whole}

parse_query-statement_text_example :
    parse_query whole (statement_text (create_index "memory" "kind" true))
    ≡ parsed (query_of whole (create_index "memory" "kind" true))
unfolding is_space
parse_query-statement_text_example =
    parse_query-statement_text whole (create_index "memory" "kind" true)
      ((refl, refl), (refl, refl))

fields-join_example : fields (join " " ("GET" ∷ "MEMORY" ∷ [])) ≡ "GET" ∷ "MEMORY" ∷ []
unfolding is_space
fields-join_example = fields-join ("GET" ∷ "MEMORY" ∷ []) (refl, (refl, tt))

fields-trim_space_example : fields (trim_space " GET MEMORY ") ≡ fields " GET MEMORY "
fields-trim_space_example = fields-trim_space " GET MEMORY "

abbrev condition : Condition whole
condition = record { key = "kind"; operator = "="; word = "note" }

abbrev cut_off : List String
cut_off = "WHERE" ∷ "id" ∷ []

parse_delete_panics_example :
    (parse_delete whole cut_off ≡ out_of_range)
    ↔ ((cut_off ≡ cut_off) ⊎ (cut_off ≡ "WHERE" ∷ "id" ∷ "=" ∷ []))
parse_delete_panics_example = parse_delete_panics whole cut_off

-- numbers are compared as texts
number_order : matches_operator whole "<" (str "10") (str "9") ≡ true
unfolding matches_operator sprint
number_order = refl

abbrev get_notes : Query ℕ
get_notes = record {
  query_type = query_get;
  entry_type = entry_type_memory;
  collection = "";
  id = "";
  key = "";
  value = "";
  filters = record { key = "kind"; operator = "="; operand = str "note" } ∷ [];
  similar_to = [];
  limit = pos 1;
  index_name = "";
  field_names = [];
  unique = false;
}

abbrev kinds : Index ℕ
kinds = record {
  name = "kind";
  collection = "memory";
  index_type = btree;
  indexed_fields = "kind" ∷ [];
  unique = false;
  partial_expr = "";
  options = [];
  structure = btree_index (("note", "d1" ∷ []) ∷ []);
}

abbrev indexes : Indexes whole
indexes =
    ("memory:kind", kinds) ∷ ("memory:tags", record kinds { name = "tags"; index_type = gin }) ∷ []

abbrev note : Document ℕ
note = ("id", str "d1") ∷ ("payload", obj (field "kind" (str "note") no_fields)) ∷ []

abbrev memory : Collection ℕ
memory = record { find_all = done (some (note ∷ [])); find = λ id. done (some note) }

abbrev optimizer : QueryOptimizer ℕ
optimizer = optimizer_of whole get_notes indexes

optimize_plans_example :
    FullScan whole optimizer get_notes (optimize whole optimizer get_notes)
    ⊎ IndexScan whole optimizer get_notes (optimize whole optimizer get_notes)
optimize_plans_example = optimize_plans whole optimizer get_notes

ltb_asym : (x y : ℕ) → ltb x y ≡ true → ltb y x ≡ false
ltb_asym x y h = ground arith

ltb_trans : (x y z : ℕ) → ltb x y ≡ false → ltb y z ≡ false → ltb x z ≡ false
ltb_trans x y z h g = ground arith

uses_index : (plan_of whole get_notes indexes).use_index ≡ true
unfolding optimize get_indexes_for_collection new_query_optimizer can_use_index lookup insert
uses_index = refl

notes-Priced :
    Priced whole (λ x. Unit) (candidates whole optimizer.stats get_notes.filters optimizer.indexes)
unfolding get_indexes_for_collection new_query_optimizer candidates can_use_index
notes-Priced = (tt, (tt, tt))

optimize_cheapest_example :
    CheapestPlan whole optimizer get_notes (optimize whole optimizer get_notes)
optimize_cheapest_example =
    optimize_cheapest whole (λ x. Unit) ltb_asym (λ x y z n. ltb_trans x y z) optimizer get_notes
      notes-Priced uses_index

execute_get-index_failed_example :
    execute_get whole get_notes indexes memory ≡ done (index_failed (not_found "kind:kind"))
unfolding optimize get_indexes_for_collection get_index new_query_optimizer can_use_index lookup
    insert
execute_get-index_failed_example =
    execute_get-index_failed whole get_notes indexes memory uses_index refl
