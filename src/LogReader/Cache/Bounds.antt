-- ===== src/LogReader/Cache/Bounds.antt =====
-- The cache never holds more entries than its size.
use regatta.Prelude.{
  ◌+◌, ◌-◌, ◌≤◌, List, length, length-append, length-drop, drop, ltb, ◌==◌, arith, Bool-cases, inl,
  inr,
}
use regatta.LogReader.Cache.{
  Entry, Cache, find_index, largest_index, make_room_and_append, put_fitting, put,
}

make_room-bounded :
    (c : Cache) (es : List Entry)
    → length es ≤ c.size
    → length (make_room_and_append c es).buffer ≤ c.size
unfolding make_room_and_append
make_room-bounded c es l = elim (Bool-cases (ltb c.size (length es + length c.buffer))) [
  | inl over ↦
      rw
        (
          over,
          length-append (drop (length es + length c.buffer - c.size) c.buffer) es,
          length-drop (length es + length c.buffer - c.size) c.buffer,
        )
        (ground (arith, over, l))
  | inr fits ↦ rw (fits, length-append c.buffer es) (ground (arith, fits))
]

fitting-bounded :
    (c : Cache) (es : List Entry)
    → length c.buffer ≤ c.size
    → length es ≤ c.size
    → length (put_fitting c es).buffer ≤ c.size
fitting-bounded c es b l = ground (
  arith,
  b,
  make_room-bounded c es l,
  make_room-bounded c (drop (find_index es (λ index. ltb (largest_index c) index)) es),
  length-drop (find_index es (λ index. ltb (largest_index c) index)) es,
  l,
)

-- put keeps the number of entries within the size of the cache, if it is so before,
-- whatever is put.
pub length-put :
    (c : Cache) (es : List Entry) → length c.buffer ≤ c.size → length (put c es).buffer ≤ c.size
unfolding put
length-put c es b = elim (Bool-cases (length es == 0)) [
  | inl empty ↦ rw empty b
  | inr more ↦ elim (Bool-cases (ltb c.size (length es))) [
    | inl over ↦
        rw (more, over)
          (fitting-bounded c (drop (length es - c.size) es) b
            (rw (length-drop (length es - c.size) es) (ground (arith, over))))
    | inr fits ↦ rw (more, fits) (fitting-bounded c es b (ground (arith, fits)))
  ]
]
