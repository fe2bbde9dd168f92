-- ===== src/Command/DirLaws.antt =====
-- What a listing of a directory holds.
use crab_rs.Prelude.{
  String, List, [], ◌∷◌, ◌++◌, map, append_assoc, append-nil, some, Result, ok, err, ◌≡◌, ◌↔◌, refl,
  sym, ap, ◌∙◌, arith, Option-cases, Result-cases, inl, inr,
}
use crab_rs.Command.Files.{FileSystem, DirItem, DirEntry, collect_entries, list_dir}

-- An entry of a directory that can be listed.
abbrev pub item_of : DirEntry → Result String DirItem
item_of e = ok (record { file_name = some e.name; is_dir = ok e.dir })

collect_entries-items :
    (es ret : List DirEntry) → collect_entries (map item_of es) ret ≡ ok (ret ++ es)
unfolding collect_entries
collect_entries-items [] ret = rw append-nil refl
collect_entries-items (e ∷ es) ret =
    collect_entries-items es (ret ++ e ∷ []) ∙ ap ok (append_assoc ret (e ∷ []) es)

first_item :
    (item : DirItem) (items : List (Result String DirItem)) (ret all : List DirEntry)
    → collect_entries (ok item ∷ items) ret ≡ ok all
    → (d : DirEntry) × (ok item ≡ item_of d) × (collect_entries items (ret ++ d ∷ []) ≡ ok all)
unfolding collect_entries
first_item item items ret all e = elim (Option-cases item.file_name) [
  | inl nameless ↦ ground arith
  | inr (n, e1) ↦ elim (Result-cases item.is_dir) [
    | inl (b, e2) ↦ (record { name = n; dir = b }, ground arith, ground arith)
    | inr (x, e2) ↦ ground arith
  ]
]

collect_entries-ok :
    (items : List (Result String DirItem)) (ret all : List DirEntry)
    → collect_entries items ret ≡ ok all
    → (es : List DirEntry) × (all ≡ ret ++ es) × (items ≡ map item_of es)
unfolding collect_entries
collect_entries-ok [] ret all e =
    let same : ret ≡ all = ground arith in ([], sym same ∙ sym (append-nil ret), refl)
collect_entries-ok (err x ∷ items) ret all e = cc
collect_entries-ok (ok item ∷ items) ret all e =
    let (d, same, rest) = first_item item items ret all e in
    let (es, joined, mapped) = collect_entries-ok items (ret ++ d ∷ []) all rest in
    (d ∷ es, joined ∙ append_assoc ret (d ∷ []) es, ground arith)

-- A listing of a directory that can be read succeeds with some entries just if the items of the
-- directory are these entries in their order, each with a Unicode name and a known type.
pub list_dir-item_of :
    {W : Type 0} (fs : FileSystem W) (path : String) (w w' : W)
    (items : List (Result String DirItem)) (es : List DirEntry)
    → fs.read_dir path w ≡ (ok items, w')
    → (list_dir fs path w ≡ (ok es, w')) ↔ (items ≡ map item_of es)
unfolding list_dir
list_dir-item_of fs path w w' items es e = rw e (
  λ h.
      let (es', joined, mapped) = collect_entries-ok items [] es (ap (λ p. p.0) h) in
      mapped ∙ ap (map item_of) (sym joined),
  λ h. ap (λ r. (r, w')) (ap (λ l. collect_entries l []) h ∙ collect_entries-items es []),
)
