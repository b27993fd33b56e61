-- ===== src/Witnesses/Padding.antt =====
-- Padding at a concrete printer of documents.
use postgres_controller_back.Base.{ℕ, suc, ◌+◌, ◌≡◌, ◌≤◌, refl, List, [], ◌∷◌, ◌++◌, length, arith}
use postgres_controller_back.Base.Int.{pos}
use postgres_controller_back.Base.Text.{Text, codes}
use postgres_controller_back.Json.{
  Json, null, bool, num, str, arr, obj, Members, end, member, empty_object, field,
}
use postgres_controller_back.LoadTest.Seeder.{
  count_of, padding_from, with_padding, set_field, set_member, pad_to_size,
}
use postgres_controller_back.LoadTest.Seeder.Padding.{Grows, pad_to_size_reaches}

-- A text with a letter for each member of the padding.
abbrev count_members : Members → Text
count_members end = []
count_members (member k v ms) = b'x' ∷ count_members ms

abbrev tallied : Json → Text
tallied (obj ms) = count_members ms
tallied null = []
tallied (bool b) = []
tallied (num t) = []
tallied (str t) = []
tallied (arr xs) = []

abbrev letters : Members → Text
letters end = []
letters (member k v ms) = b'{' ∷ tallied v

abbrev pub rough : Json → Text
rough (obj ms) = letters ms
rough null = []
rough (bool b) = []
rough (num t) = []
rough (str t) = []
rough (arr xs) = []

padding_grows :
    (i : ℕ) (ns : List ℕ) (n : ℕ)
    → length (count_members (padding_from i (ns ++ n ∷ [])))
      ≡ suc (length (count_members (padding_from i ns)))
unfolding padding_from
padding_grows i [] n = refl
padding_grows i (m ∷ ns) n = omega (arith, padding_grows (i + 1) ns n)

rough-Grows : Grows rough empty_object
unfolding with_padding set_field set_member padding_from
rough-Grows [] n = omega arith
rough-Grows (m ∷ ns) n = omega (arith, padding_grows 0 (m ∷ ns) n)

pad_to_size_reaches_example :
    (count_of (pos 40) ≤ length (rough (pad_to_size rough empty_object (pos 40))))
    × (field (codes "data") (pad_to_size rough empty_object (pos 40))
        ≡ field (codes "data") empty_object)
pad_to_size_reaches_example =
    pad_to_size_reaches rough empty_object (pos 40) (codes "data") rough-Grows (λ e. cc)
