-- ===== src/Location/Segments.antt =====
-- services/location-service/src/location_service/processing/pipeline.py: which metadata a segment
-- gets. Markers are what the loops over the legs collect, in their order.
pub mod Latest
use lojinextv.Prelude.{
  ℕ, suc, zero, ◌+◌, Bool, true, false, Option, none, some, List, [], ◌∷◌, leb, replicate,
  if◌then◌else◌,
}

pub data RoadClass : Type 0 where
  motorway motorway_link trunk trunk_link primary primary_link secondary secondary_link : RoadClass
  tertiary tertiary_link street service ferry other : RoadClass

pub data UrbanClass : Type 0 where
  urban non_urban unknown : UrbanClass

pub record SegmentMetadata : Type 0 where
  pub road_class : RoadClass
  pub urban_class : UrbanClass
  pub tunnel_flag : Bool

abbrev pub default_segment_metadata : SegmentMetadata
default_segment_metadata = record {
  road_class = RoadClass.other;
  urban_class = UrbanClass.unknown;
  tunnel_flag = false;
}

-- an intersection's index and what it says
pub record Marker : Type 0 where
  pub geometry_index : ℕ
  pub metadata : SegmentMetadata

-- `markers.sort(key=...)`: equal indices keep their order
unfoldable pub insert : Marker → List Marker → List Marker
insert x [] = x ∷ []
insert x (y ∷ ys) =
    let rest = insert x ys in if leb x.geometry_index y.geometry_index then x ∷ y ∷ ys else y ∷ rest

unfoldable pub sort : List Marker → List Marker
unfolding insert
sort [] = []
sort (x ∷ xs) = insert x (sort xs)

-- the inner while loop; the markers from the cursor on stand for the cursor
unfoldable pub advance : ℕ → SegmentMetadata → List Marker → SegmentMetadata × List Marker
advance i latest [] = (latest, [])
advance i latest (x ∷ xs) =
    let rest = advance i x.metadata xs in if leb x.geometry_index i then rest else (latest, x ∷ xs)

-- the outer loop, from a segment's index on
unfoldable pub resolve : ℕ → ℕ → SegmentMetadata → List Marker → List SegmentMetadata
unfolding advance
resolve zero i latest xs = []
resolve (suc n) i latest xs =
    let step = advance i latest xs in step.0 ∷ resolve n (i + 1) step.0 step.1

abbrev pub is_empty : List Marker → Bool
is_empty [] = true
is_empty (x ∷ xs) = false

-- `_segment_metadata_by_index`
unfoldable pub segment_metadata_by_index : ℕ → List Marker → List SegmentMetadata
unfolding sort resolve
segment_metadata_by_index segment_count markers =
    if is_empty markers
    then replicate segment_count default_segment_metadata
    else resolve segment_count 0 default_segment_metadata (sort markers)
