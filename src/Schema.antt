-- ===== src/Schema.antt =====
-- core/schema.c: the tables by which the documents are read, written and freed.
pub mod XsType
pub mod Derived
mod Tests
use client.Schema.XsType
use client.Base.{
  ℕ, zero, suc, ◌+◌, ◌-◌, ◌/◌, ◌%◌, Bool, true, false, Option, none, some, List, [], ◌∷◌, ◌==◌,
  ◌||◌, ◌&&◌, ltb, if◌then◌else◌, get_elem?,
}

-- The unions are one field: `offset` is also the size, and `index` also the XML type.
pub record SchemaElement : Type 0 where
  pub offset : ℕ
  pub index : ℕ
  pub min : ℕ
  pub max : ℕ
  pub n : ℕ
  pub bit : ℕ
  pub attribute : Bool
  pub simple : Bool
  pub unbounded : Bool

pub record Schema : Type 0 where
  pub length : ℕ
  pub elements : List SchemaElement
  pub names : List ℕ
  pub ids : List ℕ

-- The types whose values are pointers; a string of a given length is not.
unfoldable pub is_pointer : ℕ → Bool
is_pointer type = type == XsType.string || type == XsType.any_uri

-- `while (se->index)`: from a type to the one that it derives from. None where the
-- fuel ends or the table does.
unfoldable pub derives : ℕ → Schema → SchemaElement → ℕ → Option Bool
derives zero schema se base = none
derives (suc fuel) schema se base =
    let rest : Option Bool = elim (get_elem? schema.elements se.index) [
      | none ↦ none
      | some next ↦ derives fuel schema next base
    ] in
    if se.index == 0 then some false else if se.index == base then some true else rest

-- Fuel for every element of the table.
unfoldable pub se_is_a : SchemaElement → ℕ → Schema → Option Bool
unfolding derives
se_is_a se base schema = elim (get_elem? schema.elements base) [
  | none ↦ none
  | some b ↦
      if se.simple || se.attribute
      then some false
      else derives (suc schema.length) schema se b.index
]

unfoldable pub type_is_a : ℕ → ℕ → Schema → Option Bool
unfolding se_is_a
type_is_a type base schema =
    if ltb type schema.length
    then elim (get_elem? schema.elements type) [ none ↦ none | some se ↦ se_is_a se base schema ]
    else some false

-- None behind the table.
unfoldable pub object_size : ℕ → Schema → Option ℕ
object_size type schema = elim (get_elem? schema.elements type) [
  | none ↦ none
  | some se ↦ elim (get_elem? schema.elements se.index) [ none ↦ none | some t ↦ some t.offset ]
]

unfoldable pub type_name : ℕ → Schema → Option ℕ
type_name type schema = get_elem? schema.names type

-- `index` is the place of the element in the table.
unfoldable pub se_name : ℕ → Schema → Option ℕ
se_name index schema =
    if ltb index schema.length
    then get_elem? schema.names index
    else elim (get_elem? schema.ids (index - schema.length)) [
      | none ↦ none
      | some id ↦ get_elem? schema.names id
    ]

-- `sizeof (char *)`, of a machine of 64 bits.
abbrev pub pointer_size : ℕ
pointer_size = 8

unfoldable pub simple_size : ℕ → ℕ
simple_size xs_type =
    let n = xs_type / 16 in
    let t = xs_type % 16 in
    if t == XsType.string
    then (if n == 0 then pointer_size else n)
    else if t == XsType.boolean
    then 0
    else if t == XsType.hex_binary
    then n
    else if t == XsType.any_uri
    then pointer_size
    else if t == XsType.long || t == XsType.ulong
    then 8
    else if t == XsType.int || t == XsType.uint
    then 4
    else if t == XsType.short || t == XsType.ushort
    then 2
    else if t == XsType.byte || t == XsType.ubyte
    then 1
    else 0

unfoldable pub object_element_size : SchemaElement → Schema → Option ℕ
unfolding simple_size
object_element_size se schema =
    if se.simple
    then some (simple_size se.index)
    else elim (get_elem? schema.elements se.index) [ none ↦ none | some t ↦ some t.offset ]
