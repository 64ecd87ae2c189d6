-- ===== src/Hierarchy.antt =====
-- src/main/cpp/hierarchy.cpp: the loggers by name and their parents. A logger is its address; the
-- fields `name` and `parent` of every logger are functions. The caches of the loggers' levels
-- (`updateThreshold`) and the listeners are left out.
pub mod Names
pub mod Nearest
pub mod Children
pub mod Link
pub mod Created
pub mod Tree
pub mod Requests
use logging_log4cxx.Prelude.{
  ℕ, zero, suc, ◌+◌, ◌-◌, Bool, true, false, Option, none, some, Outcome, returned, undefined,
  ◌>>=◌, List, [], ◌∷◌, ◌++◌, map, if◌then◌else◌, ◌==◌, Text, codes, length, take, get_elem?,
}
use logging_log4cxx.Prelude.Maps.{find, insert, erase}
use logging_log4cxx.StringHelper.{starts_with}

-- `fresh` is the next address; `provision_nodes` has for a name without a logger the loggers below it.
pub record Hierarchy : Type 0 where
  pub fresh : ℕ
  pub root : ℕ
  pub name_of : ℕ → Text
  pub parent_of : ℕ → Option ℕ
  pub loggers : List (Text × ℕ)
  pub provision_nodes : List (Text × List ℕ)

-- After `getRootLogger`: the root logger is the only one.
unfoldable pub new : Hierarchy
new = record {
  fresh = 1;
  root = 0;
  name_of = λ l. codes "root";
  parent_of = λ l. none;
  loggers = [];
  provision_nodes = [];
}

abbrev write {ℓ} : {A : Type ℓ} → ℕ → A → (ℕ → A) → ℕ → A
write l a f x = if l == x then a else f x

-- `Logger::setParent`
unfoldable pub set_parent : ℕ → Option ℕ → Hierarchy → Hierarchy
set_parent l parent h = record h { parent_of = write l parent h.parent_of }

-- The values of `i` in the loop of `updateParents` from a position on: the dots behind the first
-- character, from the last to the first.
unfoldable pub dots : Text → ℕ → List ℕ
dots name zero = []
dots name (suc i) = elim (get_elem? name (suc i)) [
  | none ↦ dots name i
  | some c ↦ if c == b'.' then suc i ∷ dots name i else dots name i
]

-- The values of `substr`.
unfoldable pub ancestors : Text → List Text
unfolding dots
ancestors name = map (λ i. take i name) (dots name (length name - 1))

unfoldable pub provide : Text → ℕ → List (Text × List ℕ) → List (Text × List ℕ)
unfolding find insert
provide name l nodes = elim (find name nodes) [
  | none ↦ insert name (l ∷ []) nodes
  | some node ↦ insert name (node ++ l ∷ []) nodes
]

-- The loop of `updateParents` over the values of `substr`, with `parentFound`.
unfoldable pub link : List Text → ℕ → Hierarchy → Hierarchy × Bool
unfolding find set_parent provide
link [] l h = (h, false)
link (name ∷ names) l h = elim (find name h.loggers) [
  | some parent ↦ (set_parent l (some parent) h, true)
  | none ↦ link names l (record h { provision_nodes = provide name l h.provision_nodes })
]

-- The end of `updateParents`: without a parent, the logger is linked with the root.
abbrev pub concluded : ℕ → ℕ → Hierarchy × Bool → Hierarchy
unfolding set_parent
concluded l root (h, parent_found) = if parent_found then h else set_parent l (some root) h

unfoldable pub update_parents : ℕ → Hierarchy → Hierarchy
unfolding link ancestors set_parent
update_parents l h = concluded l h.root (link (ancestors (h.name_of l)) l h)

-- `updateChildren(ProvisionNode&, const LoggerPtr&)`: a null parent is dereferenced.
unfoldable pub update_children : List ℕ → ℕ → Hierarchy → Outcome Hierarchy
unfolding set_parent starts_with
update_children [] l h = returned h
update_children (c ∷ pn) l h = elim (h.parent_of c) [
  | none ↦ undefined
  | some p ↦ update_children pn l (
      if starts_with (h.name_of p) (h.name_of l)
      then h
      else set_parent c (some l) (set_parent l (some p) h))
]

-- The part of `getLogger` for a name without a logger: `l` is the new one.
unfoldable pub made : Text → ℕ → Hierarchy → Hierarchy
unfolding insert
made name l h = record h {
  fresh = l + 1;
  name_of = write l name h.name_of;
  parent_of = write l none h.parent_of;
  loggers = insert name l h.loggers;
}

abbrev pub dropped : Text → Hierarchy → Hierarchy
unfolding erase
dropped name h = record h { provision_nodes = erase name h.provision_nodes }

unfoldable pub adopt : Text → ℕ → Hierarchy → Outcome Hierarchy
unfolding find erase update_children
adopt name l h = elim (find name h.provision_nodes) [
  | none ↦ returned h
  | some pn ↦ update_children pn l h >>= λ h'. returned (dropped name h')
]

-- `getLogger`, with a factory.
unfoldable pub get_logger : Text → Hierarchy → Outcome (ℕ × Hierarchy)
unfolding find made adopt update_parents
get_logger name h = elim (find name h.loggers) [
  | some l ↦ returned (l, h)
  | none ↦ adopt name h.fresh (made name h.fresh h) >>= λ h'.
      returned (h.fresh, update_parents h.fresh h')
]
