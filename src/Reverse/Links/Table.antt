-- ===== src/Reverse/Links/Table.antt =====
-- Rows of the reverse_links table under a PTR name: lookups after the writes of webui/app/reverse.py.
use powerdns.Prelude.{
  ◌≡◌, ◌≢◌, inl, inr, refl, subst, Bool, false, Option, none, some, List, [], ◌∷◌, any, keep, arith,
  All, Bool-cases, if◌then◌else◌,
}
use powerdns.Text.{Text, eq_text, upper}
use powerdns.Text.Laws.{eq_text_iff}
use powerdns.Store.{ReverseLink, Db}
use powerdns.Names.{canonical}
use powerdns.Reverse.Links.{is_of_record, links_for_record, link_at, remove_link, set_link}

pub link_at-set_link :
    (ptr : Text) (link : ReverseLink) (ls : List ReverseLink)
    → link_at ptr (set_link link ls)
      ≡ (if eq_text link.ptr_name ptr then some link else link_at ptr ls)
unfolding link_at set_link
link_at-set_link ptr link [] = refl
link_at-set_link ptr link (l ∷ ls) = ground (
  arith,
  link_at-set_link ptr link ls,
  eq_text_iff l.ptr_name link.ptr_name,
  eq_text_iff link.ptr_name ptr,
  eq_text_iff l.ptr_name ptr,
)

pub link_at-remove_link :
    (ptr old : Text) (ls : List ReverseLink)
    → link_at ptr (remove_link old ls) ≡ (if eq_text old ptr then none else link_at ptr ls)
unfolding link_at remove_link
link_at-remove_link ptr old [] = ground arith
link_at-remove_link ptr old (l ∷ ls) = ground (
  arith,
  link_at-remove_link ptr old ls,
  eq_text_iff l.ptr_name old,
  eq_text_iff l.ptr_name ptr,
  eq_text_iff old ptr,
)

-- No two rows have the same PTR name.
abbrev pub HasUniquePtrs : List ReverseLink → Type 0
HasUniquePtrs [] = Unit
HasUniquePtrs (l ∷ ls) = All (λ (m : ReverseLink). m.ptr_name ≢ l.ptr_name) ls × HasUniquePtrs ls

-- The row of a PTR, if there is one, belongs to the record set.
abbrev pub is_owned : Text → Text → Text → Option ReverseLink → Bool
is_owned zone name rtype none = false
is_owned zone name rtype (some l) = is_of_record zone name rtype l

absent :
    (zone name rtype : Text) (ptr : Text) (ls : List ReverseLink)
    → All (λ (m : ReverseLink). m.ptr_name ≢ ptr) ls
    → any (λ (l : ReverseLink). eq_text l.ptr_name ptr) (keep (is_of_record zone name rtype) ls)
      ≡ false
absent zone name rtype ptr [] h = refl
absent zone name rtype ptr (l ∷ ls) h =
    ground (arith, absent zone name rtype ptr ls h.1, h.0, eq_text_iff l.ptr_name ptr)

pub owned_links :
    (zone name rtype : Text) (ptr : Text) (ls : List ReverseLink)
    → HasUniquePtrs ls
    → any (λ (l : ReverseLink). eq_text l.ptr_name ptr) (keep (is_of_record zone name rtype) ls)
      ≡ is_owned zone name rtype (link_at ptr ls)
unfolding link_at
owned_links zone name rtype ptr [] h = refl
owned_links zone name rtype ptr (l ∷ ls) h = elim (Bool-cases (eq_text l.ptr_name ptr)) [
  | inl e ↦
      let gone = absent zone name rtype ptr ls (
        subst (λ p. All (λ (m : ReverseLink). m.ptr_name ≢ p) ls) ((eq_text_iff l.ptr_name ptr).0 e)
          h.0) in
      ground arith
  | inr e ↦ ground (arith, owned_links zone name rtype ptr ls h.1)
]

pub links_for_record-keep :
    (zone name rtype : Text) (db : Db)
    → links_for_record zone name rtype db
      ≡ keep (is_of_record (canonical zone) (canonical name) (upper rtype)) db.reverse_links
unfolding links_for_record
links_for_record-keep zone name rtype db = refl
