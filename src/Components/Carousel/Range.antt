-- ===== src/Components/Carousel/Range.antt =====
-- The first item in view stays among the items.
use superfluid_aragon_app.Prelude.{
  ℕ, ◌*◌, ◌≤◌, ◌<◌, ℤ, pos, ◌+ℤ◌, ◌-ℤ◌, ◌*ℤ◌, ◌≤ℤ◌, sub_ℕ, ltb_ℤ, ◌≡◌, true, arith, Bool-cases, inl,
  inr, ap, ◌∙◌, ltb, ◌⊎◌,
}
use superfluid_aragon_app.Sync.Blocks.{min_ℤ, max_ℤ}
use superfluid_aragon_app.Components.Carousel.{
  CarouselProps, CarouselState, initial_carousel, last_selectionable_item, lay_out, last_start,
  prev, next, shows_prev, shows_next, allow_drag, drag_target, release, abs_ℤ, x_from_item,
  side_space, dragged_x,
}

-- What moves a carousel: its layout after a change, its buttons where they stand, and a drag.
pub data Moves (c : CarouselState) : CarouselState → Type 0 where
  laid_out : (props : CarouselProps) (width : ℕ) → Moves c (lay_out props width c)
  went_back : shows_prev c ≡ true → Moves c (prev c)
  went_on : shows_next c ≡ true → Moves c (next c)
  dragged : (delta : ℤ) → Moves c (release c delta)

-- The histories of a carousel, from its first layout on.
pub data History : CarouselState → Type 0 where
  mounted :
      (props : CarouselProps) (width : ℕ) → History (lay_out props width (initial_carousel props))
  moved : {c d : CarouselState} → History c → Moves c d → History d

-- Each drag in compact mode finds as many items as are in view.
abbrev pub IsRoomy : {c : CarouselState} → History c → Type 0
IsRoomy (mounted props width) = Unit
IsRoomy (moved h (laid_out props width)) = IsRoomy h
IsRoomy (moved h (went_back s)) = IsRoomy h
IsRoomy (moved h (went_on s)) = IsRoomy h
IsRoomy (moved {c} h (dragged delta)) =
    (c.props.compact_mode ≡ true → c.visible_items ≤ c.props.item_count) × IsRoomy h

pub record IsBounded (c : CarouselState) : Type 0 where
  pub shown : 0 < c.visible_items
  pub low : pos 0 ≤ℤ c.selected
  pub high : c.selected ≤ℤ pos (last_selectionable_item c.props.item_count c.visible_items)

lay_out-IsBounded :
    (props : CarouselProps) (width : ℕ) (c : CarouselState)
    → pos 0 ≤ℤ c.selected
    → IsBounded (lay_out props width c)
unfolding lay_out
lay_out-IsBounded props width c low = record {
  shown = ground arith;
  low = ground arith;
  high = ground arith;
}

prev-IsBounded : (c : CarouselState) → IsBounded c → IsBounded (prev c)
unfolding prev ◌-ℤ◌
prev-IsBounded c h = record {
  shown = h.shown;
  low = ground arith;
  high = ground (arith, h.high, h.low, h.shown);
}

next-IsBounded : (c : CarouselState) → shows_next c ≡ true → IsBounded c → IsBounded (next c)
unfolding next ◌+ℤ◌
next-IsBounded c s h = record {
  shown = h.shown;
  low = ground (arith, s, h.low);
  high = ground (arith, s, h.low);
}

drag_target_low :
    (c : CarouselState) (delta : ℤ)
    → c.visible_items ≤ c.props.item_count
    → IsBounded c
    → pos 0 ≤ℤ drag_target c delta
unfolding drag_target ◌+ℤ◌ ◌-ℤ◌
drag_target_low c delta r h = ground (arith, h.low)

drag_target_high :
    (c : CarouselState) (delta : ℤ)
    → c.visible_items ≤ c.props.item_count
    → IsBounded c
    → drag_target c delta ≤ℤ pos (last_selectionable_item c.props.item_count c.visible_items)
unfolding drag_target ◌+ℤ◌ ◌-ℤ◌
drag_target_high c delta r h = ground (arith, h.low, h.high)

release-IsBounded :
    (c : CarouselState) (delta : ℤ)
    → (c.props.compact_mode ≡ true → c.visible_items ≤ c.props.item_count)
    → IsBounded c
    → IsBounded (release c delta)
unfolding release
release-IsBounded c delta r h = elim (Bool-cases (allow_drag c)) [
  | inl allowed ↦
      let room : c.visible_items ≤ c.props.item_count = allowed_room allowed in
      rw allowed (record {
        shown = h.shown;
        low = drag_target_low c delta room h;
        high = drag_target_high c delta room h;
      })
  | inr refused ↦ rw refused h
]
  where
    allowed_room : allow_drag c ≡ true → c.visible_items ≤ c.props.item_count
    allowed_room a = elim (Bool-cases c.props.compact_mode) [
      | inl compact ↦ r compact
      | inr wide ↦ ground (arith, wide, a)
    ]

History-IsBounded : {c : CarouselState} (h : History c) → IsRoomy h → IsBounded c
History-IsBounded (mounted props width) r =
    lay_out-IsBounded props width (initial_carousel props) (ground arith)
History-IsBounded (moved {c} h (laid_out props width)) r =
    lay_out-IsBounded props width c (History-IsBounded h r).low
History-IsBounded (moved {c} h (went_back s)) r = prev-IsBounded c (History-IsBounded h r)
History-IsBounded (moved {c} h (went_on s)) r = next-IsBounded c s (History-IsBounded h r)
History-IsBounded (moved {c} h (dragged delta)) r =
    release-IsBounded c delta r.0 (History-IsBounded h r.1)

-- An item is in view, the first one in view is not before the first item, and the items fill the view
-- from it on or it is the first item.
pub record IsInRange (c : CarouselState) : Type 0 where
  pub shown : 0 < c.visible_items
  pub low : pos 0 ≤ℤ c.selected
  pub filled : (c.selected +ℤ pos c.visible_items ≤ℤ pos c.props.item_count) ⊎ (c.selected ≡ pos 0)

filled_view :
    (selected : ℤ) (n v : ℕ)
    → pos 0 ≤ℤ selected
    → selected ≤ℤ pos (last_selectionable_item n v)
    → (selected +ℤ pos v ≤ℤ pos n) ⊎ (selected ≡ pos 0)
unfolding ◌+ℤ◌
filled_view selected n v low high = elim (Bool-cases (ltb v n)) [
  | inl many ↦ inl (ground (arith, low, high, many))
  | inr few ↦ inr (ground (arith, low, high, few))
]

-- After any history in which each drag in compact mode finds as many items as are in view, the first
-- item in view is not before the first item, and the items from it on fill the view, unless it is the
-- first item.
pub History-IsInRange : {c : CarouselState} (h : History c) → IsRoomy h → IsInRange c
History-IsInRange {c} h r =
    let bounded = History-IsBounded h r in
    record {
      shown = bounded.shown;
      low = bounded.low;
      filled = filled_view c.selected c.props.item_count c.visible_items bounded.low bounded.high;
    }

dragged_to :
    (c : CarouselState) (delta : ℤ)
    → c.props.compact_mode ≡ true
    → c.props.item_count < c.visible_items
    → c.selected ≡ pos 0
    → delta ≤ℤ pos 0
    → c.props.item_width < 2 * abs_ℤ delta
    → (release c delta).selected ≡ sub_ℕ c.props.item_count c.visible_items
unfolding release drag_target ◌+ℤ◌
dragged_to c delta compact few first left far = ground (arith, compact, few, first, left, far)

below_start : (n v : ℕ) → n < v → ltb_ℤ (sub_ℕ n v) (pos 0) ≡ true
below_start n v h = ground arith

lay_out_below :
    (c : CarouselState) (props : CarouselProps) (width : ℕ)
    → ltb_ℤ c.selected (pos 0) ≡ true
    → (lay_out props width c).selected ≡ c.selected
unfolding lay_out
lay_out_below c props width h = ground arith

-- In compact mode with fewer items than are in view, a drag to the right item from the first one, over
-- more than half an item, selects a place before the first item, and no later layout, of any items, moves
-- it back.
pub drag_past_start :
    (c : CarouselState) (delta : ℤ) (props : CarouselProps) (width : ℕ)
    → c.props.compact_mode ≡ true
    → c.props.item_count < c.visible_items
    → c.selected ≡ pos 0
    → delta ≤ℤ pos 0
    → c.props.item_width < 2 * abs_ℤ delta
    → ((release c delta).selected ≡ sub_ℕ c.props.item_count c.visible_items)
      × (ltb_ℤ (release c delta).selected (pos 0) ≡ true)
      × ((lay_out props width (release c delta)).selected ≡ (release c delta).selected)
drag_past_start c delta props width compact few first left far =
    let there = dragged_to c delta compact few first left far in
    let negative = ap (λ x. ltb_ℤ x (pos 0)) there ∙ below_start _ _ few in
    (there, negative, lay_out_below (release c delta) props width negative)

below_by : (a : ℤ) (m n v : ℕ) → v ≤ n → a -ℤ pos m *ℤ sub_ℕ n v ≤ℤ a
unfolding ◌-ℤ◌ ◌*ℤ◌
below_by a m n v h = ground arith

clamped :
    (low high x : ℤ)
    → low ≤ℤ high
    → (low ≤ℤ max_ℤ low (min_ℤ high x)) × (max_ℤ low (min_ℤ high x) ≤ℤ high)
clamped low high x h = (ground arith, ground arith)

last_left :
    (c : CarouselState)
    → c.visible_items ≤ c.props.item_count
    → x_from_item c (last_start c) ≤ℤ side_space c
unfolding x_from_item
last_left c h = below_by (side_space c) _ _ _ h

-- With at least as many items as are in view, a drag moves the items no further than to the first one
-- and to the one that starts the last view.
pub dragged_x_between :
    (c : CarouselState) (delta : ℤ)
    → c.visible_items ≤ c.props.item_count
    → (x_from_item c (last_start c) ≤ℤ dragged_x c delta) × (dragged_x c delta ≤ℤ side_space c)
unfolding dragged_x
dragged_x_between c delta h =
    clamped (x_from_item c (last_start c)) (side_space c)
      (x_from_item c c.selected +ℤ (delta +ℤ delta)) (last_left c h)
