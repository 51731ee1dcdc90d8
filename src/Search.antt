-- ===== src/Search.antt =====
-- www/src/components/SearchModal.tsx: the search of the documentation site, with its state.
-- Of the text functions of the language `toLowerCase`, `trim`, `split(/\s+/)` and `length` are the
-- argument `Texts`.
pub mod Ranking
use text.Mathlib.Text.{starts_with}
use kprobe.Base.{
  ℕ, zero, suc, ◌+◌, ◌-◌, String, Bool, true, false, not, ◌&&◌, Option, none, some, List, [], ◌∷◌,
  map, ltb, leb, nat_eq, if◌then◌else◌, ◌==◌, string_key, length, filter, take, get_elem?, sort,
  min, max,
}
use kprobe.Debug.{includes}

pub record SearchEntry : Type 0 where
  pub title : String
  pub href : String
  pub section : String
  pub description : String

abbrev pub fallback_pages : List SearchEntry
fallback_pages =
    record {
      title = "Overview";
      href = "/docs";
      section = "Start Here";
      description = "kprobe documentation overview";
    }
    ∷ record {
      title = "Installation Overview";
      href = "/docs/installation";
      section = "Install";
      description = "Choose the right kprobe installation path";
    }
    ∷ record {
      title = "Architecture at a Glance";
      href = "/docs/architecture";
      section = "Start Here";
      description = "The high-level architecture of kprobe";
    }
    ∷ []

pub record Texts : Type 0 where
  pub lower : String → String
  pub trim : String → String
  pub words : String → List String
  pub size : String → ℕ

abbrev pub points : Bool → ℕ → ℕ
points true n = n
points false n = 0

pub record Search : Type 0 where
  pub open_now : Bool
  pub query : String
  pub selected : ℕ
  pub pages : List SearchEntry
  pub replaced : Bool  -- whether `pages` is not `fallbackPages`
  pub loading : Bool
  pub location : Option String  -- what `window.location.href` was set to

abbrev pub initial : Search
initial = record {
  open_now = false;
  query = "";
  selected = 0;
  pages = fallback_pages;
  replaced = false;
  loading = false;
  location = none;
}

-- `fetched` is the reply to the request for the index that was made last: the entries, or none where it
-- failed or was not ok, which leaves the pages as they are. A reply after the search was closed is
-- cancelled.
pub data Action : Type 0 where
  triggered toggled closed arrow_down arrow_up entered : Action
  typed : String → Action
  hovered : ℕ → Action  -- the number of a result under the pointer
  fetched : Option (List SearchEntry) → Action

module _ (texts : Texts) where
  open texts use {lower, trim, words, size}

  abbrev pub part_points : String → String → String → ℕ
  part_points title description part =
      if ltb (size part) 2
      then 0
      else points (includes title part) 10 + points (includes description part) 4

  abbrev pub parts_points : String → String → List String → ℕ
  parts_points title description [] = 0
  parts_points title description (p ∷ ps) =
      part_points title description p + parts_points title description ps

  unfoldable pub score : SearchEntry → String → ℕ
  score entry query =
      let q = lower (trim query) in
      let title = lower entry.title in
      let description = lower entry.description in
      if q == ""
      then 1
      else points (title == q) 100
        + points (starts_with title q) 60
        + points (includes title q) 40
        + points (includes (lower entry.section) q) 20
        + points (includes description q) 12
        + points (includes (lower entry.href) q) 6
        + parts_points title description (words q)

  abbrev pub better : SearchEntry × ℕ → SearchEntry × ℕ → Bool
  better left right = leb right.1 left.1

  unfoldable pub ranked : List SearchEntry → String → List (SearchEntry × ℕ)
  unfolding score sort
  ranked pages q =
      take 12
        (sort better (filter (λ item. ltb 0 item.1) (map (λ entry. (entry, score entry q)) pages)))

  unfoldable pub filtered_pages : Search → List SearchEntry
  unfolding ranked
  filtered_pages s =
      if trim s.query == ""
      then take 12 s.pages
      else map (λ item. item.0) (ranked s.pages (trim s.query))

  -- The effect on `open`.
  abbrev pub set_open : Bool → Search → Search
  set_open true s = record s {
    open_now = true;
    query = if s.open_now then s.query else "";
    selected = if s.open_now then s.selected else 0;
    loading = if s.open_now then s.loading else not s.replaced;
  }
  set_open false s = record s { open_now = false }

  unfoldable pub step : Action → Search → Search
  unfolding filtered_pages
  step triggered s = set_open true s
  step toggled s = set_open (not s.open_now) s
  step closed s = set_open false s
  step arrow_down s =
      if s.open_now
      then record s { selected = min (s.selected + 1) (max (length (filtered_pages s) - 1) 0) }
      else s
  step arrow_up s = if s.open_now then record s { selected = s.selected - 1 } else s
  step entered s =
      if s.open_now
      then elim (get_elem? (filtered_pages s) s.selected) [
        | none ↦ s
        | some e ↦ record s { location = some e.href }
      ]
      else s
  step (typed q) s = record s { query = q; selected = if s.query == q then s.selected else 0 }
  step (hovered i) s = record s { selected = i }
  step (fetched o) s =
      if s.open_now && not s.replaced
      then elim o [
        | none ↦ record s { loading = false }
        | some entries ↦
            if ltb 0 (length entries)
            then record s { pages = entries; replaced = true; loading = false }
            else record s { loading = false }
      ]
      else s
