-- ===== src/Btree/Layout.antt =====
-- `BtreeLayout` and `btree_layout_create` of src/index/btree.c: how a page of `node_size` bytes is
-- shared out between the key count, the keys, the offsets and the children.
use maxql.Prelude.{ℕ, ◌+◌, ◌-◌, ◌*◌, ◌/◌, ◌%◌, ◌≤◌, ◌<◌, ◌≡◌, arith}

pub record BtreeLayout : Type 0 where
  pub key_size : ℕ
  pub offset_size : ℕ
  pub child_size : ℕ
  pub max_keys : ℕ
  pub min_keys : ℕ
  pub mid : ℕ
  pub left_count : ℕ
  pub right_count : ℕ
  pub child_count : ℕ
  pub right_start : ℕ
  pub flags_offset : ℕ
  pub flags_size : ℕ
  pub key_count_offset : ℕ
  pub key_count_size : ℕ
  pub keys_offset : ℕ
  pub keys_size : ℕ
  pub offsets_offset : ℕ
  pub offsets_size : ℕ
  pub children_offset : ℕ
  pub children_size : ℕ
  pub node_size : ℕ

-- The conversion to `uint16_t`.
abbrev pub u16 : ℕ → ℕ
u16 n = n % 65536

-- `uint16_t` differences; `-` on ℕ stops at 0.
abbrev sub_u16 : ℕ → ℕ → ℕ
sub_u16 a b = u16 (a + 65536 - b)

unfoldable pub btree_layout_create : ℕ → ℕ → BtreeLayout
btree_layout_create node_size key_size =
    let offset_size = u16 8 in
    let child_size = u16 8 in
    let dynamic_space = sub_u16 node_size 3 in
    let space_adjusted = sub_u16 dynamic_space child_size in
    let max_keys = u16 (space_adjusted / (key_size + offset_size + child_size)) in
    let left_count = u16 ((max_keys + 1) / 2) in
    let child_count = u16 (max_keys + 1) in
    let keys_offset = u16 (1 + 2) in
    let keys_size = u16 (max_keys * key_size) in
    let offsets_offset = u16 (keys_offset + keys_size) in
    let offsets_size = u16 (max_keys * offset_size) in
    let children_offset = u16 (offsets_offset + offsets_size) in
    record {
      key_size = key_size;
      offset_size = offset_size;
      child_size = child_size;
      max_keys = max_keys;
      min_keys = u16 ((max_keys - 1) / 2);
      mid = u16 ((max_keys + 1) / 2);
      left_count = left_count;
      right_count = sub_u16 max_keys left_count;
      child_count = child_count;
      right_start = u16 (left_count + 1);
      flags_offset = 0;
      flags_size = 1;
      key_count_offset = 1;
      key_count_size = 2;
      keys_offset = keys_offset;
      keys_size = keys_size;
      offsets_offset = offsets_offset;
      offsets_size = offsets_size;
      children_offset = children_offset;
      children_size = u16 (child_count * child_size);
      node_size = node_size;
    }

-- What the operations on nodes rely on: how a full node and one more entry are shared out.
pub record IsLayout (l : BtreeLayout) : Type 0 where
  pub some_key : 1 ≤ l.max_keys
  pub mid_left : l.mid ≡ l.left_count
  pub left_half : l.left_count ≡ (l.max_keys + 1) / 2
  pub right_half : l.left_count + l.right_count ≡ l.max_keys
  pub right_next : l.right_start ≡ l.left_count + 1
  pub min_half : l.min_keys ≡ (l.max_keys - 1) / 2

-- The regions of a page follow one another inside it.
pub record IsPage (l : BtreeLayout) : Type 0 where
  pub after_flags : l.flags_offset + l.flags_size ≡ l.key_count_offset
  pub after_key_count : l.key_count_offset + l.key_count_size ≡ l.keys_offset
  pub whole_keys : l.keys_size ≡ l.max_keys * l.key_size
  pub after_keys : l.keys_offset + l.keys_size ≡ l.offsets_offset
  pub whole_offsets : l.offsets_size ≡ l.max_keys * l.offset_size
  pub after_offsets : l.offsets_offset + l.offsets_size ≡ l.children_offset
  pub whole_children : l.children_size ≡ (l.max_keys + 1) * l.child_size
  pub within : l.children_offset + l.children_size ≤ l.node_size

module _ (n k : ℕ) (h : n < 65536) (room : k + 27 ≤ n) where
  max_keys_pos : 1 ≤ (n - 11) / (k + 16)
  max_keys_pos = grind arith

  max_keys_fit : (n - 11) / (k + 16) * k + (n - 11) / (k + 16) * 16 + 11 ≤ n
  max_keys_fit = grind arith

  max_keys_lem : u16 (sub_u16 (sub_u16 n 3) (u16 8) / (k + u16 8 + u16 8)) ≡ (n - 11) / (k + 16)
  max_keys_lem =
      let space : sub_u16 (sub_u16 n 3) (u16 8) ≡ n - 11 = omega arith in
      let each : k + u16 8 + u16 8 ≡ k + 16 = omega arith in
      rw (space, each) (omega (arith, max_keys_fit))

  -- A page with room for one key gives a layout that shares a full node out, region by region.
  pub btree_layout_create-IsLayout : IsLayout (btree_layout_create n k)
  unfolding btree_layout_create
  btree_layout_create-IsLayout = rw max_keys_lem (omega (arith, max_keys_pos, max_keys_fit))

  pub btree_layout_create-IsPage : IsPage (btree_layout_create n k)
  unfolding btree_layout_create
  btree_layout_create-IsPage = rw max_keys_lem (omega (arith, max_keys_pos, max_keys_fit))
