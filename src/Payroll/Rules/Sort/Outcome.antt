-- ===== src/Payroll/Rules/Sort/Outcome.antt =====
-- Every outcome of the depth-first search: an order in which dependencies come first, or a cycle.
use mathlib.Core.Path.{subst}
use erp_agent.Prelude.{
  ℕ, zero, suc, ◌+◌, ◌<◌, String, ◌≡◌, refl, sym, ap, ◌∙◌, true, false, none, some, List, [], ◌∷◌,
  ◌++◌, arith, eq_iff, eq_refl, ◌⊎◌, inl, inr, Bool-cases, Option-cases, is_some, All, All-snoc,
  elem, elem-append, elem-keys, Distinct, Distinct-snoc, length, length-append, length-le_of_Among,
  append_assoc, append-nil, lookup, keys, contains, Result, ok, err, ◌>>=◌,
}
use erp_agent.Payroll.Errors.{PayrollError, cyclic_dependency}
use erp_agent.Payroll.Rules.Resolver.{ResolvedComponent}
use erp_agent.Payroll.Rules.Sort.{Search, ByCode, visit_inputs, finish, visit}

abbrev pub codes : List ResolvedComponent → List String
codes [] = []
codes (c ∷ cs) = c.component_code ∷ codes cs

codes-snoc :
    (cs : List ResolvedComponent) (c : ResolvedComponent)
    → codes (cs ++ c ∷ []) ≡ codes cs ++ c.component_code ∷ []
codes-snoc [] c = refl
codes-snoc (x ∷ cs) c = ap (λ t. x.component_code ∷ t) (codes-snoc cs c)

elem-snoc_self : (x : String) (xs : List String) → elem x (xs ++ x ∷ []) ≡ true
elem-snoc_self x xs = ground (arith, elem-append x xs (x ∷ []), eq_refl x)

-- Each dependency of `c` that the index holds is among `done`.
abbrev pub AreMet : ByCode → List String → ResolvedComponent → Type 0
AreMet by done c = All (λ d. contains d by ≡ true → elem d done ≡ true) c.inputs_required

-- In the list every component stands behind its dependencies; `done` came before.
abbrev pub Respects : ByCode → List String → List ResolvedComponent → Type 0
Respects by done [] = Unit
Respects by done (c ∷ cs) = AreMet by done c × Respects by (done ++ c.component_code ∷ []) cs

Respects-snoc :
    (by : ByCode) (done : List String) (cs : List ResolvedComponent) (c : ResolvedComponent)
    → Respects by done cs
    → AreMet by (done ++ codes cs) c
    → Respects by done (cs ++ c ∷ [])
Respects-snoc by done [] c h m = (subst (λ t. AreMet by t c) (append-nil done) m, tt)
Respects-snoc by done (x ∷ cs) c (here, later) m = (
  here,
  Respects-snoc by (done ++ x.component_code ∷ []) cs c later
      (subst (λ t. AreMet by t c) (sym (append_assoc done (x.component_code ∷ []) (codes cs))) m),
)

-- The invariant of the search.
pub record IsSearch (by : ByCode) (st : Search) : Type 0 where
  pub synced : st.visited ≡ codes st.ordered
  pub distinct : Distinct st.visited
  pub respects : Respects by [] st.ordered
  pub indexed : All (λ c. lookup c.component_code by ≡ some c) st.ordered

-- What a visit may change: nothing on the stack is finished meanwhile.
pub record IsGrown (stack : List String) (st st' : Search) : Type 0 where
  pub kept : (d : String) → elem d st.visited ≡ true → elem d st'.visited ≡ true
  pub pending :
      (d : String) → elem d stack ≡ true → elem d st.visited ≡ false → elem d st'.visited ≡ false

-- `b` is listed as a dependency of the component `a`.
abbrev pub Needs : ByCode → String → String → Type 0
Needs by a b = (c : ResolvedComponent) × (lookup a by ≡ some c) × (elem b c.inputs_required ≡ true)

-- Each code of the path needs the next, and the last needs `end`.
abbrev pub IsPathTo : ByCode → List String → String → Type 0
IsPathTo by [] end = Unit
IsPathTo by (a ∷ []) end = Needs by a end
IsPathTo by (a ∷ b ∷ path) end = Needs by a b × IsPathTo by (b ∷ path) end

IsPathTo-snoc :
    (by : ByCode) (path : List String) (a end : String)
    → IsPathTo by path a
    → Needs by a end
    → IsPathTo by (path ++ a ∷ []) end
IsPathTo-snoc by [] a end p n = n
IsPathTo-snoc by (x ∷ []) a end p n = (p, n)
IsPathTo-snoc by (x ∷ y ∷ path) a end (here, later) n =
    (here, IsPathTo-snoc by (y ∷ path) a end later n)

-- A cycle: a path of needs to a code that stands on it.
abbrev pub IsCycle : ByCode → List String → Type 0
IsCycle by path =
    (front : List String) × (end : String) × (path ≡ front ++ end ∷ [])
    × IsPathTo by front end
    × (elem end front ≡ true)

abbrev pub IsKeyed : ByCode → Type 0
IsKeyed by = (d : String) (c : ResolvedComponent) → lookup d by ≡ some c → c.component_code ≡ d

abbrev pub Fails : ByCode → Result PayrollError Search → Type 0
Fails by r = (path : List String) × (r ≡ err (cyclic_dependency path)) × IsCycle by path

abbrev pub Visited :
    ByCode → List String → Search → Result PayrollError Search → List String → Type 0
Visited by stack st r goals =
    (st' : Search) × (r ≡ ok st')
    × IsSearch by st'
    × IsGrown stack st st'
    × All (λ d. contains d by ≡ true → elem d st'.visited ≡ true) goals

pub IsGrown-refl : (stack : List String) (st : Search) → IsGrown stack st st
IsGrown-refl stack st = record { kept = λ d k. k; pending = λ d k n. n }

pub IsGrown-trans :
    (stack : List String) (a b c : Search)
    → IsGrown stack a b
    → IsGrown stack b c
    → IsGrown stack a c
IsGrown-trans stack a b c g k = record {
  kept = λ d h. k.kept d (g.kept d h);
  pending = λ d h n. k.pending d h (g.pending d h n);
}

module _ (v : ResolvedComponent → Search → Result PayrollError Search) (by : ByCode) (dep : String)
    (deps : List String) (st : Search) where
  visit_inputs-absent :
      lookup dep by ≡ none → visit_inputs v by (dep ∷ deps) st ≡ visit_inputs v by deps st
  unfolding visit_inputs
  visit_inputs-absent e = rw (e, visit_inputs)

  visit_inputs-present :
      (c : ResolvedComponent)
      → lookup dep by ≡ some c
      → visit_inputs v by (dep ∷ deps) st ≡ (v c st >>= λ st'. visit_inputs v by deps st')
  unfolding visit_inputs
  visit_inputs-present c e = rw (e, visit_inputs)

module _ (by : ByCode) (keyed : IsKeyed by) where
  -- The loop over the dependencies, given what each visit does.
  visit_inputs-outcome :
      (stack : List String) (v : ResolvedComponent → Search → Result PayrollError Search)
      (deps : List String)
      → ((c : ResolvedComponent) (st : Search)
          → elem c.component_code deps ≡ true
          → lookup c.component_code by ≡ some c
          → IsSearch by st
          → Visited by stack st (v c st) (c.component_code ∷ []) ⊎ Fails by (v c st))
      → (st : Search) → IsSearch by st
      → Visited by stack st (visit_inputs v by deps st) deps ⊎ Fails by (visit_inputs v by deps st)
  unfolding visit_inputs
  visit_inputs-outcome stack v [] hv st h =
      inl (st, refl, h, record { kept = λ d k. k; pending = λ d k n. n }, tt)
  visit_inputs-outcome stack v (dep ∷ deps) hv st h = elim (Option-cases (lookup dep by)) [
    | inl absent ↦
        subst (λ r. Visited by stack st r (dep ∷ deps) ⊎ Fails by r)
          (sym (visit_inputs-absent v by dep deps st absent))
          (elim (visit_inputs-outcome stack v deps (λ c s m. hv c s (ground arith)) st h) [
            | inl (st', e, h', g, all) ↦ inl (st', e, h', g, (λ k. cc (ap is_some absent), all))
            | inr fails ↦ inr fails
          ])
    | inr (c, found) ↦
        let same = keyed dep c found in
        subst (λ r. Visited by stack st r (dep ∷ deps) ⊎ Fails by r)
          (sym (visit_inputs-present v by dep deps st c found))
          (elim (hv c st (rw same (rw (eq_refl dep))) (ap (λ t. lookup t by) same ∙ found) h) [
            | inl (st1, e1, h1, g1, (here, _)) ↦
                subst
                  (λ r.
                    Visited by stack st (r >>= λ s. visit_inputs v by deps s) (dep ∷ deps)
                    ⊎ Fails by (r >>= λ s. visit_inputs v by deps s))
                  (sym e1)
                  (elim (visit_inputs-outcome stack v deps (λ c s m. hv c s (ground arith)) st1
                    h1) [
                      | inl (st2, e2, h2, g2, all) ↦ inl (
                        st2,
                        e2,
                        h2,
                        IsGrown-trans stack st st1 st2 g1 g2,
                        (λ k. g2.kept dep (rw same at (here (rw same k))), all),
                      )
                      | inr fails ↦ inr fails
                    ])
            | inr (path, e1, cycle) ↦
                inr (path, ap (λ r. r >>= λ s. visit_inputs v by deps s) e1, cycle)
          ])
  ]

  finish-IsSearch :
      (c : ResolvedComponent) (st : Search)
      → IsSearch by st
      → elem c.component_code st.visited ≡ false
      → AreMet by st.visited c
      → lookup c.component_code by ≡ some c
      → IsSearch by (finish c st)
  unfolding finish
  finish-IsSearch c st h new met found = record {
    synced = ap (λ t. t ++ c.component_code ∷ []) h.synced ∙ sym (codes-snoc st.ordered c);
    distinct = Distinct-snoc st.visited c.component_code h.distinct new;
    indexed = All-snoc (λ x. lookup x.component_code by ≡ some x) st.ordered h.indexed found;
    respects =
        Respects-snoc by [] st.ordered c h.respects (subst (λ t. AreMet by t c) h.synced met);
  }

  finish-IsGrown :
      (stack : List String) (c : ResolvedComponent) (st st1 : Search)
      → elem c.component_code stack ≡ false
      → IsGrown (stack ++ c.component_code ∷ []) st st1
      → IsGrown stack st (finish c st1)
  unfolding finish
  finish-IsGrown stack c st st1 fresh g = record {
    kept = λ d k. ground (arith, elem-append d st1.visited (c.component_code ∷ []), g.kept d k);
    pending = λ d k n. ground (
      arith,
      elem-append d st1.visited (c.component_code ∷ []),
      elem-append d stack (c.component_code ∷ []),
      g.pending d,
      eq_iff d c.component_code,
    );
  }

  visit-step :
      (fuel : ℕ) (stack : List String) (c : ResolvedComponent) (st : Search)
      → elem c.component_code st.visited ≡ false
      → elem c.component_code stack ≡ false
      → visit (suc fuel) by stack c st ≡ (
          visit_inputs (visit fuel by (stack ++ c.component_code ∷ [])) by c.inputs_required st
          >>= λ st'. ok (finish c st'))
  unfolding visit
  visit-step fuel stack c st new fresh = rw (new, fresh)

  -- What a visit has done when the loop over the dependencies has succeeded.
  visit-Visited :
      (stack : List String) (c : ResolvedComponent) (st st1 : Search)
      (r : Result PayrollError Search)
      → lookup c.component_code by ≡ some c
      → elem c.component_code st.visited ≡ false
      → elem c.component_code stack ≡ false
      → IsSearch by st1
      → IsGrown (stack ++ c.component_code ∷ []) st st1
      → AreMet by st1.visited c
      → r ≡ ok st1
      → Visited by stack st (r >>= λ s. ok (finish c s)) (c.component_code ∷ [])
  unfolding finish
  visit-Visited stack c st st1 r found new fresh h1 g met e =
      let code = c.component_code in
      let pending = g.pending code (elem-snoc_self code stack) new in
      (
        finish c st1,
        ap (λ t. t >>= λ s. ok (finish c s)) e,
        finish-IsSearch c st1 h1 pending met found,
        finish-IsGrown stack c st st1 fresh g,
        ((λ k. elem-snoc_self code st1.visited), tt),
      )

  -- A visit finishes the component behind its dependencies, or it has found a cycle: with more fuel than
  -- the index has codes that are not on the stack, the depth of the recursion is never the limit.
  pub visit-outcome :
      (fuel : ℕ) (stack : List String) (c : ResolvedComponent) (st : Search)
      → lookup c.component_code by ≡ some c
      → IsSearch by st
      → Distinct stack
      → All (λ d. elem d (keys by) ≡ true) stack
      → IsPathTo by stack c.component_code
      → length (keys by) < fuel + length stack
      → Visited by stack st (visit fuel by stack c st) (c.component_code ∷ [])
        ⊎ Fails by (visit fuel by stack c st)
  unfolding visit
  visit-outcome zero stack c st found h u a p f =
      absurd (omega (arith, length-le_of_Among stack (keys by) u a))
  visit-outcome (suc fuel) stack c st found h u a p f =
      let code = c.component_code in
      let stack' = stack ++ code ∷ [] in
      elim (Bool-cases (elem code st.visited)) [
        | inl seen ↦ inl (st, rw seen, h, IsGrown-refl stack st, ((λ k. seen), tt))
        | inr new ↦ elim (Bool-cases (elem code stack)) [
          | inl again ↦ inr (stack', rw (new, again), (stack, code, refl, p, again))
          | inr fresh ↦
              let member : elem code (keys by) ≡ true = elem-keys code by ∙ ap is_some found in
              let inner =
                visit_inputs-outcome stack' (visit fuel by stack') c.inputs_required
                  (λ c' st' m found' h'.
                    visit-outcome fuel stack' c' st' found' h' (Distinct-snoc stack code u fresh)
                      (All-snoc (λ d. elem d (keys by) ≡ true) stack a member)
                      (IsPathTo-snoc by stack code c'.component_code p (c, found, m))
                      (omega (arith, length-append stack (code ∷ []))))
                  st h in
              subst (λ r. Visited by stack st r (code ∷ []) ⊎ Fails by r)
                (sym (visit-step fuel stack c st new fresh))
                (elim inner [
                  | inl (st1, e, h1, g, met) ↦
                      inl (visit-Visited stack c st st1 _ found new fresh h1 g met e)
                  | inr (path, e, cycle) ↦ inr (path, ap (λ r. r >>= λ s. ok (finish c s)) e, cycle)
                ])
        ]
      ]
