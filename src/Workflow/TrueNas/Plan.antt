-- ===== src/Workflow/TrueNas/Plan.antt =====
-- application/truenas_publish.py: the TrueNAS API as an interface, and the plan for each station.
use true_nas_controller.Common.{
  ℕ, Bool, true, false, not, ◌&&◌, ◌||◌, Option, none, some, List, [], ◌∷◌, ◌++◌, Text, codes,
  text_eq, uuid_hex, take, keep_if, find_first, is_empty, leb, ◌==◌, if◌then◌else◌,
}
use mathlib.Core.List.{reverse}
use true_nas_controller.Domain.Station.{Station}
use true_nas_controller.Domain.Publish.{PublishJob}
use true_nas_controller.Workflow.Outcome.{Outcome}

-- The metadata of application/truenas.py.
pub record TrueNasDataset : Type 0 where
  pub id : Text
  pub name : Text

pub record TrueNasSnapshot : Type 0 where
  pub name : Text
  pub dataset : Text

pub record TrueNasTarget : Type 0 where
  pub id : ℕ
  pub name : Text

pub record TrueNasExtent : Type 0 where
  pub id : ℕ
  pub path : Option Text

pub record TrueNasTargetExtent : Type 0 where
  pub target_id : ℕ
  pub extent_id : ℕ
  pub lun_id : ℕ

-- `TrueNASReadOnlyClient` and `TrueNASWriteClient` of application/ports.py.
pub record ReadClient (World : Type 0) : Type 0 where
  pub query_datasets : World → Outcome (List TrueNasDataset) × World
  pub query_snapshots : World → Outcome (List TrueNasSnapshot) × World
  pub query_targets : World → Outcome (List TrueNasTarget) × World
  pub query_extents : World → Outcome (List TrueNasExtent) × World
  pub query_target_extents : World → Outcome (List TrueNasTargetExtent) × World

pub record WriteClient (World : Type 0) : Type 0 where
  pub create_snapshot : Text → Text → World → Outcome TrueNasSnapshot × World
  pub clone_snapshot : Text → Text → World → Outcome (Unit {0}) × World
  pub update_extent_device : ℕ → Text → World → Outcome (Unit {0}) × World

pub record ExistingExtentMapping : Type 0 where
  pub station_id : ℕ
  pub target_id : ℕ
  pub extent_id : ℕ
  pub lun_id : ℕ
  pub old_device : Option Text

pub record StationPlan : Type 0 where
  pub station : Station
  pub mapping : ExistingExtentMapping
  pub destination_dataset : Text
  pub destination_device : Text

-- `[A-Za-z0-9_-]`
abbrev is_slug_char : ℕ → Bool
is_slug_char c =
    (leb b'A' c && leb c b'Z')
    || (leb b'a' c && leb c b'z')
    || (leb b'0' c && leb c b'9')
    || c == b'_'
    || c == b'-'

-- `re.sub(r"[^A-Za-z0-9_-]+", "-", value)`; `replaced` tells that the run of other characters before
-- this one has its dash already.
dash_runs : Bool → Text → Text
dash_runs replaced [] = []
dash_runs replaced (c ∷ s) = slug_step replaced c (dash_runs (not (is_slug_char c)) s)
  where
    slug_step : Bool → ℕ → Text → Text
    slug_step replaced c rest =
        if is_slug_char c then c ∷ rest else if replaced then rest else b'-' ∷ rest

abbrev is_edge : ℕ → Bool
is_edge c = c == b'-' || c == b'_'

drop_edge : Text → Text
drop_edge [] = []
drop_edge (c ∷ s) = let rest = drop_edge s in if is_edge c then rest else c ∷ s

-- `slug or "station"`
abbrev or_station : Text → Text
or_station [] = codes "station"
or_station (c ∷ s) = c ∷ s

-- `_safe_slug`
unfoldable pub safe_slug : Text → Text
unfolding dash_runs drop_edge
safe_slug value =
    take 48 (or_station (reverse (drop_edge (reverse (drop_edge (dash_runs false value))))))

-- `_build_station_plan`
unfoldable pub build_station_plan : PublishJob → Station → ExistingExtentMapping → StationPlan
build_station_plan job station mapping =
    let destination_dataset =
      job.source_dataset
      ++ codes "-"
      ++ safe_slug station.display_name
      ++ codes "-"
      ++ take 12 (uuid_hex job.id) in
    record {
      station = station;
      mapping = mapping;
      destination_dataset = destination_dataset;
      destination_device = codes "zvol/" ++ destination_dataset;
    }

-- `not target_name`
abbrev empty_name : Option Text → Bool
empty_name none = true
empty_name (some name) = is_empty name

abbrev text_or_empty : Option Text → Text
text_or_empty none = []
text_or_empty (some t) = t

-- The single element of a list.
abbrev pub only : {A : Type 0} → List A → Option A
only [] = none
only (x ∷ []) = some x
only (x ∷ y ∷ _) = none

-- `{item.id: item for item in extents}[id]`: the last extent with the id.
abbrev last_extent : ℕ → List TrueNasExtent → Option TrueNasExtent
last_extent id [] = none
last_extent id (e ∷ es) = elim (last_extent id es) [
  | some x ↦ some x
  | none ↦ if e.id == id then some e else none
]

-- One pass of the loop of `_resolve_mappings`; `none` where it raises.
unfoldable pub resolve_station :
    List TrueNasTarget
    → List TrueNasTargetExtent
    → List TrueNasExtent
    → Station
    → Option ExistingExtentMapping
resolve_station targets associations extents station =
    if empty_name station.target_name
    then none
    else elim (find_first
        (λ (t : TrueNasTarget). text_eq t.name (text_or_empty station.target_name)) targets) [
          | none ↦ none
          | some target ↦
              elim (only
                (keep_if (λ (a : TrueNasTargetExtent). a.target_id == target.id) associations)) [
                  | none ↦ none
                  | some association ↦ elim (last_extent association.extent_id extents) [
                    | none ↦ none
                    | some extent ↦ some (record {
                      station_id = station.station_id;
                      target_id = target.id;
                      extent_id = extent.id;
                      lun_id = association.lun_id;
                      old_device = extent.path;
                    })
                  ]
                ]
        ]

-- The plans, in the order of the stations, which have distinct ids.
abbrev pub plan_all :
    PublishJob
    → List TrueNasTarget
    → List TrueNasTargetExtent
    → List TrueNasExtent
    → List Station
    → Option (List StationPlan)
plan_all job targets associations extents [] = some []
plan_all job targets associations extents (s ∷ ss) =
    elim (resolve_station targets associations extents s) [
      | none ↦ none
      | some mapping ↦ elim (plan_all job targets associations extents ss) [
        | none ↦ none
        | some plans ↦ some (build_station_plan job s mapping ∷ plans)
      ]
    ]
