-- ===== src/Admin/Paging.antt =====
-- LIMIT and OFFSET of the admin lists, as the three `FindAll` functions set them.
use go_lang_domain_based_ent.Prelude.{
  List, arith, drop, if◌then◌else◌, leb, length, length-take-le, ltb, negsuc, pos, take, ℕ, ℤ, ◌||◌,
  ◌≤◌,
}

-- `if limit <= 0 || limit > 100 { limit = 20 }`
unfoldable pub page_limit : ℤ → ℕ
page_limit (pos n) = if leb n 0 || ltb 100 n then 20 else n
page_limit (negsuc n) = 20

-- `if offset < 0 { offset = 0 }`
unfoldable pub page_offset : ℤ → ℕ
page_offset (pos n) = n
page_offset (negsuc n) = 0

-- ... LIMIT limit OFFSET offset
unfoldable pub page : {A : Type 0} → ℤ → ℤ → List A → List A
unfolding page_limit page_offset
page limit offset rows = take (page_limit limit) (drop (page_offset offset) rows)

pub length-page :
    {A : Type 0} (limit offset : ℤ) (rows : List A) → length (page limit offset rows) ≤ 100
unfolding page
length-page (pos n) offset rows =
    ground (arith, length-take-le (page_limit (pos n)) (drop (page_offset offset) rows))
length-page (negsuc n) offset rows =
    ground (arith, length-take-le 20 (drop (page_offset offset) rows))
