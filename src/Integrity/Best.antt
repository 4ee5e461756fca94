-- ===== src/Integrity/Best.antt =====
-- The document's value that get_integrity_pairs (backend/agents/data_gateway.py) compares with.
use project_main.Prelude.{
  ℕ, ◌≤◌, ◌≡◌, refl, inl, inr, String, true, Option, none, some, List, [], ◌∷◌, ltb, if◌then◌else◌,
  arith, Bool-cases, In, str_eq, str_eq_iff, subst, sym, ap, ◌∙◌, true-ne-false, none-ne-some,
  some-injective,
}
use project_main.Prelude.Dict.{
  Dict, string_eq, lookup, insert, lookup-insert_self, lookup-insert_ne,
}
use project_main.Integrity.{
  Value, ExtractionRecord, Best, chosen, offer, offer_fields, offer_records, confidence_of,
}

-- The collection has a value for the key, of this confidence at least.
abbrev pub AtLeast : Best → String → ℕ → Type 0
AtLeast best key conf = (v : Value) × (c : ℕ) × (lookup key best ≡ some (v, c)) × (conf ≤ c)

chosen-AtLeast :
    (o : Option (Value × ℕ)) (best : Best) (key : String) (v : Value) (conf : ℕ)
    → lookup key best ≡ o
    → AtLeast (chosen o best key v conf) key conf
chosen-AtLeast none best key v conf e =
    (v, conf, lookup-insert_self key (v, conf) best, omega arith)
chosen-AtLeast (some (old, c)) best key v conf e = elim (Bool-cases (ltb c conf)) [
  | inl l ↦ rw l (v, conf, lookup-insert_self key (v, conf) best, omega arith)
  | inr l ↦ rw l (old, c, e, ground arith)
]

insert-AtLeast :
    (best : Best) (j k : String) (v : Value) (conf m : ℕ)
    → ((c : ℕ) (old : Value) → lookup k best ≡ some (old, c) → c ≤ conf)
    → AtLeast best j m
    → AtLeast (insert k (v, conf) best) j m
insert-AtLeast best j k v conf m above (w, c, found, le) = elim (Bool-cases (str_eq j k)) [
  | inl e ↦
      let same = (str_eq_iff j k).0 e in
      let le' = above c w (subst (λ x. lookup x best ≡ some (w, c)) same found) in
      (
        v,
        conf,
        subst (λ x. lookup x (insert k (v, conf) best) ≡ some (v, conf)) (sym same)
            (lookup-insert_self k (v, conf) best),
        omega (arith, le'),
      )
  | inr e ↦ (
    w,
    c,
    lookup-insert_ne j k (v, conf) best (λ same. true-ne-false (sym ((str_eq_iff j k).1 same) ∙ e))
        ∙ found,
    le,
  )
]

chosen-AtLeast_kept :
    (o : Option (Value × ℕ)) (best : Best) (j k : String) (v : Value) (conf m : ℕ)
    → lookup k best ≡ o
    → AtLeast best j m
    → AtLeast (chosen o best k v conf) j m
chosen-AtLeast_kept none best j k v conf m e h =
    insert-AtLeast best j k v conf m (λ c old f. absurd (none-ne-some (sym e ∙ f))) h
chosen-AtLeast_kept (some (old, c)) best j k v conf m e h = elim (Bool-cases (ltb c conf)) [
  | inl l ↦
      rw l
        (insert-AtLeast best j k v conf m (λ c' old' f. above (old, c) (old', c') l (sym e ∙ f)) h)
  | inr l ↦ rw l h
]
  where
    above : (p q : Value × ℕ) → ltb p.1 conf ≡ true → some p ≡ some q → q.1 ≤ conf
    above p q less same = let eq = ap (λ (r : Value × ℕ). r.1) (some-injective same) in ground arith

offer_fields-AtLeast_kept :
    (best : Best) (fields : Dict String Value) (cmap : Dict String ℕ) (j : String) (m : ℕ)
    → AtLeast best j m
    → AtLeast (offer_fields best fields cmap) j m
unfolding offer_fields offer
offer_fields-AtLeast_kept best [] cmap j m h = h
offer_fields-AtLeast_kept best ((k, v) ∷ fields) cmap j m h =
    offer_fields-AtLeast_kept (offer best k v (confidence_of cmap k)) fields cmap j m
      (chosen-AtLeast_kept (lookup k best) best j k v (confidence_of cmap k) m refl h)

offer_fields-AtLeast :
    (best : Best) (fields : Dict String Value) (cmap : Dict String ℕ) (j : String) (w : Value)
    → In (j, w) fields
    → AtLeast (offer_fields best fields cmap) j (confidence_of cmap j)
unfolding offer_fields offer
offer_fields-AtLeast best [] cmap j w i = absurd i
offer_fields-AtLeast best ((k, v) ∷ fields) cmap j w (inl e) =
    let conf = confidence_of cmap k in
    subst
      (λ (x : String).
        AtLeast (offer_fields (offer best k v conf) fields cmap) x (confidence_of cmap x))
      (sym (ap (λ (p : String × Value). p.0) e))
      (offer_fields-AtLeast_kept (offer best k v conf) fields cmap k conf
        (chosen-AtLeast (lookup k best) best k v conf refl))
offer_fields-AtLeast best ((k, v) ∷ fields) cmap j w (inr i) =
    offer_fields-AtLeast (offer best k v (confidence_of cmap k)) fields cmap j w i

abbrev after_record : Best → ExtractionRecord → Best
after_record best r =
    if r.supplier_confirmed then offer_fields best r.parsed_fields r.confidence_map else best

after_record-kept :
    (best : Best) (r : ExtractionRecord) (j : String) (m : ℕ)
    → AtLeast best j m
    → AtLeast (after_record best r) j m
after_record-kept best r j m h = elim (Bool-cases r.supplier_confirmed) [
  | inl e ↦ simp (e) (offer_fields-AtLeast_kept best r.parsed_fields r.confidence_map j m h)
  | inr e ↦ simp (e) h
]

offer_records-kept :
    (best : Best) (rs : List ExtractionRecord) (j : String) (m : ℕ)
    → AtLeast best j m
    → AtLeast (offer_records best rs) j m
unfolding offer_records
offer_records-kept best [] j m h = h
offer_records-kept best (r ∷ rs) j m h =
    offer_records-kept (after_record best r) rs j m (after_record-kept best r j m h)

-- The value that a key is compared with is at least as confident as any other confirmed document's
-- value of the key.
pub offer_records-AtLeast :
    (best : Best) (rs : List ExtractionRecord) (r : ExtractionRecord) (key : String) (v : Value)
    → In r rs
    → r.supplier_confirmed ≡ true
    → In (key, v) r.parsed_fields
    → AtLeast (offer_records best rs) key (confidence_of r.confidence_map key)
unfolding offer_records
offer_records-AtLeast best [] r key v i hc k = absurd i
offer_records-AtLeast best (r' ∷ rs) r key v (inl e) hc k =
    subst
      (λ (x : ExtractionRecord).
        AtLeast (offer_records (after_record best x) rs) key (confidence_of r.confidence_map key))
      e
      (offer_records-kept (after_record best r) rs key (confidence_of r.confidence_map key) (
        subst
          (λ b.
            AtLeast (if b then offer_fields best r.parsed_fields r.confidence_map else best) key
              (confidence_of r.confidence_map key))
          (sym hc) (offer_fields-AtLeast best r.parsed_fields r.confidence_map key v k)))
offer_records-AtLeast best (r' ∷ rs) r key v (inr i) hc k =
    offer_records-AtLeast (after_record best r') rs r key v i hc k
