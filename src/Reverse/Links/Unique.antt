-- ===== src/Reverse/Links/Unique.antt =====
-- No two links have the same PTR name: the writes of webui/app/reverse.py to the table of links keep
-- what its constraint says.
use powerdns.Prelude.{◌≢◌, Bool, Option, none, some, List, [], ◌∷◌, keep, All, if_elim, subst, sym}
use powerdns.Text.{Text, eq_text}
use powerdns.Text.Laws.{eq_text_iff}
use powerdns.Names.{canonical}
use powerdns.Store.{ReverseLink, Db}
use powerdns.Reverse.Links.{set_link, remove_link, forget_at, forget_ptr, link_at}
use powerdns.Reverse.Links.Table.{HasUniquePtrs}

All-keep {ℓ κ} :
    {A : Type ℓ} (P : A → Type κ) (p : A → Bool) (xs : List A) → All P xs → All P (keep p xs)
All-keep P p [] h = tt
All-keep P p (x ∷ xs) h =
    if_elim (All P) (p x) (λ _. (h.0, All-keep P p xs h.1)) (λ _. All-keep P p xs h.1)

pub keep-HasUniquePtrs :
    (p : ReverseLink → Bool) (ls : List ReverseLink) → HasUniquePtrs ls → HasUniquePtrs (keep p ls)
keep-HasUniquePtrs p [] u = tt
keep-HasUniquePtrs p (l ∷ ls) u =
    if_elim HasUniquePtrs (p l)
      (λ _. (
        All-keep (λ (m : ReverseLink). m.ptr_name ≢ l.ptr_name) p ls u.0,
        keep-HasUniquePtrs p ls u.1,
      ))
      (λ _. keep-HasUniquePtrs p ls u.1)

All-set_link :
    (ptr : Text) (link : ReverseLink) (ls : List ReverseLink)
    → link.ptr_name ≢ ptr
    → All (λ (m : ReverseLink). m.ptr_name ≢ ptr) ls
    → All (λ (m : ReverseLink). m.ptr_name ≢ ptr) (set_link link ls)
unfolding set_link
All-set_link ptr link [] n h = (n, tt)
All-set_link ptr link (l ∷ ls) n h =
    if_elim (All (λ (m : ReverseLink). m.ptr_name ≢ ptr)) (eq_text l.ptr_name link.ptr_name)
      (λ _. (n, h.1)) (λ _. (h.0, All-set_link ptr link ls n h.1))

pub set_link-HasUniquePtrs :
    (link : ReverseLink) (ls : List ReverseLink)
    → HasUniquePtrs ls
    → HasUniquePtrs (set_link link ls)
unfolding set_link
set_link-HasUniquePtrs link [] u = (tt, tt)
set_link-HasUniquePtrs link (l ∷ ls) u =
    if_elim HasUniquePtrs (eq_text l.ptr_name link.ptr_name)
      (λ e. (
        subst (λ p. All (λ (m : ReverseLink). m.ptr_name ≢ p) ls)
            ((eq_text_iff l.ptr_name link.ptr_name).0 e) u.0,
        u.1,
      ))
      (λ e. (
        All-set_link l.ptr_name link ls
            (λ n. cc (e, (eq_text_iff l.ptr_name link.ptr_name).1 (sym n))) u.0,
        set_link-HasUniquePtrs link ls u.1,
      ))

pub remove_link-HasUniquePtrs :
    (ptr : Text) (ls : List ReverseLink) → HasUniquePtrs ls → HasUniquePtrs (remove_link ptr ls)
unfolding remove_link
remove_link-HasUniquePtrs ptr ls u = keep-HasUniquePtrs _ ls u

forget_at-HasUniquePtrs :
    (o : Option ReverseLink) (db : Db)
    → HasUniquePtrs db.reverse_links
    → HasUniquePtrs (forget_at o db).1.reverse_links
forget_at-HasUniquePtrs none db u = u
forget_at-HasUniquePtrs (some link) db u =
    remove_link-HasUniquePtrs link.ptr_name db.reverse_links u

pub forget_ptr-HasUniquePtrs :
    (ptr : Text) (db : Db)
    → HasUniquePtrs db.reverse_links
    → HasUniquePtrs (forget_ptr ptr db).1.reverse_links
unfolding forget_ptr
forget_ptr-HasUniquePtrs ptr db u =
    forget_at-HasUniquePtrs (link_at (canonical ptr) db.reverse_links) db u
