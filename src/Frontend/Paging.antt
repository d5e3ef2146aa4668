-- ===== src/Frontend/Paging.antt =====
-- `django.core.paginator.Paginator`, which the JSON lists use, as a parameter of the views.
use flownexus.Prelude.{ℕ, Bool, String, Option, List}
use flownexus.Table.Search.{Elem}

pub record RowPage (A : Type 0) : Type 0 where
  pub object_list : List A
  pub has_next : Bool
  pub has_previous : Bool
  pub number : ℕ
  pub num_pages : ℕ

-- `Paginator(rows, per_page).get_page(number)`; the number is the text of the request, if there is one.
pub record Paginator : Type 1 where
  pub get_page : (A : Type 0) → ℕ → Option String → List A → RowPage A

-- A page holds objects of the list.
abbrev pub HoldsRows : Paginator → Type 1
HoldsRows p =
    (A : Type 0) (n : ℕ) (number : Option String) (rows : List A) (x : A)
    → Elem x (p.get_page A n number rows).object_list
    → Elem x rows
