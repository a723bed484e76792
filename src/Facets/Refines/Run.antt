-- ===== src/Facets/Refines/Run.antt =====
-- internal/facets/registry.go: the registry over any sequence of edits of the operator.
use logpond.Base.{◌≡◌, refl, false, List, [], ◌∷◌, Option, All}
use logpond.Base.Text.{Bytes}
use logpond.Base.Int.{ℤ, ltb_ℤ}
use logpond.Base.Result.{Result, ok, err}
use logpond.Catalog.CustomFacets.{Facets}
use logpond.Facets.Definition.{Definition}
use logpond.Facets.Registry.{Config, load}
use logpond.Facets.Edits.{Error, Store, CreateInput, PatchInput, create_ui, update_ui, delete_ui}
use logpond.Facets.Refines.{IsSync, load-IsSync}
use logpond.Facets.Refines.Created.{HasCap, create_ui-IsSync}
use logpond.Facets.Refines.Updated.{KeepsCap, update_ui-IsSync}
use logpond.Facets.Refines.Deleted.{delete_ui-IsSync}

pub data Edit : Type 0 where
  create : ℤ → CreateInput → Edit
  update : ℤ → Bytes → PatchInput → Edit
  delete : Bytes → Edit
  -- Load: SIGHUP, or a reload of the administrator
  reload : Edit

abbrev pub state_or : Store → Result Error (Store × Definition) → Store
state_or s (err e) = s
state_or s (ok (s', d)) = s'

abbrev pub deleted_or : Store → Result Error Store → Store
deleted_or s (err e) = s
deleted_or s (ok s') = s'

-- An edit that fails changes nothing.
unfoldable pub edit : Option Config → Edit → Store → Store
edit cfg (create now i) s = state_or s (create_ui now i s)
edit cfg (update now name i) s = state_or s (update_ui now name i s)
edit cfg (delete name) s = deleted_or s (delete_ui name s)
edit cfg reload s = record s { registry = load cfg s.table }

unfoldable pub edits : Option Config → List Edit → Store → Store
edits cfg [] s = s
edits cfg (e ∷ es) s = edits cfg es (edit cfg e s)

-- Made where no row of the table is younger than the clock, with a cap that both sides keep.
abbrev pub IsPlain : Option Config → Edit → Store → Type 0
IsPlain cfg (create now i) s = All (λ g. ltb_ℤ now g.created_at ≡ false) s.table × HasCap cfg i
IsPlain cfg (update now name i) s = KeepsCap i
IsPlain cfg (delete name) s = Unit
IsPlain cfg reload s = Unit

abbrev pub ArePlain : Option Config → List Edit → Store → Type 0
ArePlain cfg [] s = Unit
ArePlain cfg (e ∷ es) s = IsPlain cfg e s × ArePlain cfg es (edit cfg e s)

-- Every edit keeps the registry in step with the table, whether it succeeds or fails.
edit-IsSync :
    (cfg : Option Config) (e : Edit) (s : Store)
    → IsSync cfg s
    → IsPlain cfg e s
    → IsSync cfg (edit cfg e s)
unfolding edit
edit-IsSync cfg (create now i) s h p = by (create_ui now i s) refl
  where
    by : (r : Result Error (Store × Definition)) → create_ui now i s ≡ r → IsSync cfg (state_or s r)
    by (err x) q = h
    by (ok (s', d)) q = create_ui-IsSync cfg now i s s' d h p.0 p.1 q
edit-IsSync cfg (update now name i) s h p = by (update_ui now name i s) refl
  where
    by :
        (r : Result Error (Store × Definition))
        → update_ui now name i s ≡ r
        → IsSync cfg (state_or s r)
    by (err x) q = h
    by (ok (s', d)) q = update_ui-IsSync cfg now name i s s' d h p q
edit-IsSync cfg (delete name) s h p = by (delete_ui name s) refl
  where
    by : (r : Result Error Store) → delete_ui name s ≡ r → IsSync cfg (deleted_or s r)
    by (err x) q = h
    by (ok s') q = delete_ui-IsSync cfg name s s' h q
edit-IsSync cfg reload s h p = load-IsSync cfg s.table h.names

pub edits-IsSync :
    (cfg : Option Config) (es : List Edit) (s : Store)
    → IsSync cfg s
    → ArePlain cfg es s
    → IsSync cfg (edits cfg es s)
unfolding edits
edits-IsSync cfg [] s h p = h
edits-IsSync cfg (e ∷ es) s h p = edits-IsSync cfg es (edit cfg e s) (edit-IsSync cfg e s h p.0) p.1

abbrev pub loaded : Option Config → Facets → Store
loaded cfg t = record { table = t; registry = load cfg t }
