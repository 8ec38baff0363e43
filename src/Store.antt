-- ===== src/Store.antt =====
-- The interface Storage of go/internal/storage/storage.go, as its clients take it: the state, the
-- operations on documents, and the index manager, which every index method of a storage passes its
-- call to. A document that is not there is a nil map. Storage/Instance fills it by FileStorage.
use knirvbase.Base.{String, Option, List, ◌≡◌}
use knirvbase.GoMap.{GoMap}
use knirvbase.Result.{Result}
use knirvbase.Call.{Call}
use knirvbase.Floats.{Floats}
use knirvbase.Value.{Value, Document}
use knirvbase.IndexManager.{Indexes}

pub record Store (fl : Floats) : Type 1 where
  pub State : Type 0
  pub find : State → String → String → Call (Result (GoMap (Value fl.Float)))
  pub find_all : State → String → Call (Result (List (Document fl.Float)))
  pub insert_doc : State → String → GoMap (Value fl.Float) → Call (State × Option String)
  pub update_doc : State → String → String → GoMap (Value fl.Float) → Call (State × Option String)
  pub delete_doc : State → String → String → Call (State × Option String)
  pub indexes : State → Indexes fl
  pub set_indexes : State → Indexes fl → State

-- The indexes of a storage are those that were set last.
abbrev pub KeepsIndexes : {fl : Floats} → Store fl → Type 0
KeepsIndexes {fl} st = (s : st.State) (im : Indexes fl) → st.indexes (st.set_indexes s im) ≡ im
