-- ===== src/Tests/RefMaps.antt =====
-- `RefMap` of book/book.hpp with one reference mapped.
use itchbook.Base.{◌≡◌, refl, arith}
use itchbook.Book.RefMap.{RefMap, make_map, insert, erase, find}
use itchbook.Book.RefMap.Find.{IsMap}
use itchbook.Book.RefMap.Grow.{make_map-IsMap, insert-IsMap, find-insert}
use itchbook.Book.RefMap.Remove.{Erased, erase_lem}

abbrev start : RefMap
start = make_map 10

start-IsMap : IsMap start
start-IsMap = (make_map-IsMap 10).0

abbrev one_ref : RefMap
one_ref = insert start 7 1

one_ref-IsMap : IsMap one_ref
one_ref-IsMap = insert-IsMap start 7 1 start-IsMap (omega arith)

find-insert_example : find (insert one_ref 23 2) 7 ≡ find one_ref 7
find-insert_example = find-insert one_ref 23 2 one_ref-IsMap (omega arith) 7

erase_lem_example : Erased one_ref 7 (erase one_ref 7)
erase_lem_example = erase_lem one_ref 7 one_ref-IsMap

-- Two references with the same home: the second moves back when the first is erased.
collisions : find (erase (insert one_ref 23 2) 7).0 23 ≡ 2
unfolding make_map insert erase find
collisions = refl
