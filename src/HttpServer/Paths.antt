-- ===== src/HttpServer/Paths.antt =====
-- async_http_server.cpp: which files a request can lead to.
use networking_cpp_intro.Common.{
  ℕ, ◌≡◌, if◌then◌else◌, Bool, true, false, Bool-cases, inl, inr, List, [], ◌∷◌, ◌++◌, append_assoc,
  arith,
}
use networking_cpp_intro.HttpServer.{
  ends_in_slash, without_last, path_cat, has_dots, starts_with_slash, index_html, Request, Opened,
  ok, is_legal, requested_path, handle_request, opened,
}

-- The root of the documents without a slash at its end.
abbrev pub trimmed : List ℕ → List ℕ
trimmed doc_root = if ends_in_slash doc_root then without_last doc_root else doc_root

-- A target that ends in a slash gets no ".." from the name of the index file.
has_dots-index_html :
    (target : List ℕ)
    → ends_in_slash target ≡ true
    → has_dots target ≡ false
    → has_dots (target ++ index_html) ≡ false
has_dots-index_html [] s h = cc
has_dots-index_html (x ∷ []) s h = ground arith
has_dots-index_html (x ∷ y ∷ rest) s h = ground (arith, has_dots-index_html (y ∷ rest))

starts_with_slash-append :
    (target more : List ℕ)
    → starts_with_slash target ≡ true
    → starts_with_slash (target ++ more) ≡ true
starts_with_slash-append [] more h = cc
starts_with_slash-append (x ∷ target) more h = h

-- A path below the root: what follows the root starts with a slash and has no "..".
abbrev pub IsBelow : List ℕ → List ℕ → Type 0
IsBelow doc_root path =
    (below : List ℕ) × (path ≡ trimmed doc_root ++ below)
    × (starts_with_slash below ≡ true)
    × (has_dots below ≡ false)

path_cat-trimmed : (root target : List ℕ) → path_cat root target ≡ trimmed root ++ target
path_cat-trimmed root target = ground arith

requested_path-IsBelow :
    (doc_root target : List ℕ)
    → is_legal target ≡ true
    → IsBelow doc_root (requested_path doc_root target)
requested_path-IsBelow doc_root target legal = elim (Bool-cases (ends_in_slash target)) [
  | inl s ↦ (
    target ++ index_html,
    ground (
      arith,
      path_cat-trimmed doc_root target,
      append_assoc (trimmed doc_root) target index_html,
    ),
    starts_with_slash-append target index_html (ground arith),
    has_dots-index_html target s (ground arith),
  )
  | inr s ↦ (target, ground (arith, path_cat-trimmed doc_root target), ground arith, ground arith)
]

-- The answer with status 200 is given only for a file below the root of the documents: the
-- request's path was opened, and what follows the root in it starts with a slash and has no "..".
pub ok-IsBelow :
    (iequals : List ℕ → List ℕ → Bool) (open_file : List ℕ → Opened) (doc_root : List ℕ)
    (req : Request)
    → (handle_request iequals open_file doc_root req).status ≡ ok
    → IsBelow doc_root (requested_path doc_root req.target)
      × ((size : ℕ) × (open_file (requested_path doc_root req.target) ≡ opened size))
unfolding handle_request
ok-IsBelow iequals open_file doc_root req h =
    (requested_path-IsBelow doc_root req.target (ground arith), ground arith)
