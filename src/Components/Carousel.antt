-- ===== src/Components/Carousel.antt =====
-- app/src/components/SuperTokens/Carousel/index.js: which item is the first one in view. A position on
-- the screen is counted in half pixels, since the space at the sides is half of what is left.
pub mod Range
use superfluid_aragon_app.Prelude.{
  ℕ, zero, suc, ◌+◌, ◌*◌, ◌/◌, ◌-◌, ℤ, pos, negsuc, ◌+ℤ◌, ◌-ℤ◌, ◌*ℤ◌, sub_ℕ, ltb_ℤ, leb_ℤ,
  is_zero_ℤ, Bool, true, false, not, ◌&&◌, ◌||◌, Option, none, some, if◌then◌else◌, ltb, leb,
  pos_part, neg_part,
}
use superfluid_aragon_app.Sync.Blocks.{min_ℤ, max_ℤ}

-- `GU` of @aragon/ui is 8 pixels; the caller's spacing is 3 of them where it gives none.
pub record CarouselProps : Type 0 where
  pub item_count : ℕ
  pub compact_mode : Bool
  pub item_width : ℕ
  pub item_spacing : ℕ
  pub custom_side_space : Option ℤ

pub record CarouselState : Type 0 where
  pub props : CarouselProps
  pub container_width : ℕ
  pub visible_items : ℕ
  pub selected : ℤ

abbrev pub initial_carousel : CarouselProps → CarouselState
initial_carousel props = record {
  props = props;
  container_width = 0;
  visible_items = 0;
  selected = pos 0;
}

-- The distance from an item to the next.
abbrev pub item_step : CarouselProps → ℕ
item_step props = props.item_width + props.item_spacing

-- A width that leaves no room gives 1, as a negative quotient does.
abbrev pub visible_items_in : CarouselProps → ℕ → ℕ
visible_items_in props container_width =
    let fitting = (container_width - props.item_spacing * 2) / item_step props in
    if leb fitting 1 then 1 else fitting

abbrev pub last_selectionable_item : ℕ → ℕ → ℕ
last_selectionable_item item_count visible_items =
    if ltb visible_items item_count then item_count - visible_items else 0

-- The effect that runs after the items, their sizes or the container's width have changed.
unfoldable pub lay_out : CarouselProps → ℕ → CarouselState → CarouselState
lay_out props container_width c =
    let visible = visible_items_in props container_width in
    let last = pos (last_selectionable_item props.item_count visible) in
    record {
      props = props;
      container_width = container_width;
      visible_items = visible;
      selected = if ltb_ℤ last c.selected then last else c.selected;
    }

-- `items.length - visibleItems`
abbrev pub last_start : CarouselState → ℤ
last_start c = sub_ℕ c.props.item_count c.visible_items

unfoldable pub prev : CarouselState → CarouselState
prev c = record c { selected = max_ℤ (pos 0) (c.selected -ℤ pos c.visible_items) }

unfoldable pub next : CarouselState → CarouselState
next c = record c { selected = min_ℤ (last_start c) (c.selected +ℤ pos c.visible_items) }

-- The buttons stand only where they lead somewhere.
abbrev pub shows_prev : CarouselState → Bool
shows_prev c = ltb_ℤ (pos 0) c.selected

abbrev pub shows_next : CarouselState → Bool
shows_next c = ltb_ℤ c.selected (last_start c)

abbrev pub allow_drag : CarouselState → Bool
allow_drag c = c.props.compact_mode || ltb c.visible_items c.props.item_count

-- In half pixels: what the visible items leave of the container.
unfoldable pub balanced_side_space : CarouselState → ℤ
balanced_side_space c =
    pos c.container_width
    -ℤ (pos (c.visible_items * c.props.item_width)
        +ℤ sub_ℕ c.visible_items 1 *ℤ pos c.props.item_spacing)

-- `customSideSpace && customSideSpace >= 0`: 0 counts as none.
abbrev pub custom_or : Option ℤ → ℤ → ℤ
custom_or none balanced = balanced
custom_or (some custom) balanced = if ltb_ℤ (pos 0) custom then custom +ℤ custom else balanced

unfoldable pub side_space : CarouselState → ℤ
side_space c =
    if not c.props.compact_mode && is_zero_ℤ c.selected
    then pos 0
    else custom_or c.props.custom_side_space (balanced_side_space c)

unfoldable pub x_from_item : CarouselState → ℤ → ℤ
x_from_item c index = side_space c -ℤ pos (2 * item_step c.props) *ℤ index

-- `Math.floor(a / b)`
abbrev pub floor_div : ℤ → ℕ → ℤ
floor_div (pos a) b = pos (a / b)
floor_div (negsuc a) b = negsuc (a / b)

abbrev pub abs_ℤ : ℤ → ℕ
abs_ℤ a = pos_part a + neg_part a

-- `Math.round(x / y)` is `Math.floor(x / y + 1 / 2)`; `delta` is in pixels.
unfoldable pub delta_selected : CarouselState → ℤ → ℕ
delta_selected c delta =
    let space = side_space c in
    let s_p = if ltb_ℤ (pos 0) delta then pos 0 -ℤ space else space in
    let step = item_step c.props in abs_ℤ (floor_div (delta +ℤ delta +ℤ s_p +ℤ pos step) (2 * step))

unfoldable pub drag_target : CarouselState → ℤ → ℤ
drag_target c delta =
    if ltb c.props.item_width (2 * abs_ℤ delta)
    then (if ltb_ℤ (pos 0) delta
        then max_ℤ (pos 0) (c.selected -ℤ pos (delta_selected c delta))
        else min_ℤ (last_start c) (c.selected +ℤ pos (delta_selected c delta)))
    else c.selected

-- The end of a drag.
unfoldable pub release : CarouselState → ℤ → CarouselState
release c delta = if allow_drag c then record c { selected = drag_target c delta } else c

-- Where the items stand during a drag, in half pixels.
unfoldable pub dragged_x : CarouselState → ℤ → ℤ
dragged_x c delta =
    max_ℤ (x_from_item c (last_start c))
      (min_ℤ (side_space c) (x_from_item c c.selected +ℤ (delta +ℤ delta)))

-- `i >= selected && i < selected + visibleItems`: the items that are not faded.
abbrev pub is_in_view : CarouselState → ℕ → Bool
is_in_view c i = leb_ℤ c.selected (pos i) && ltb_ℤ (pos i) (c.selected +ℤ pos c.visible_items)
