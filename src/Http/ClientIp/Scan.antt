-- ===== src/Http/ClientIp/Scan.antt =====
-- What ClientIP of httpapi/clientip.go promises: nothing that a client writes to the left of what the
-- own proxies append changes its answer.
use mathlib.Core.List.{reverse, reverse_aux, reverse-reverse}
use mascotapp.Base.{
  subst, ◌≡◌, ap, refl, sym, ◌∙◌, ◌⊎◌, inl, inr, true, false, List, [], ◌∷◌, ◌++◌, append-nil,
  append_assoc, Option, some, Bytes, is_empty, split, split-join, trim_space, arith, All,
  Bool-cases, Option-cases,
}
use mascotapp.Http.ClientIp.{
  Addr, ClientIpResolver, is_trusted, entries, forwarded_chain, parse_client_addr, host_only, scan,
  client_ip,
}

entries-append : (xs ys : List Bytes) → entries (xs ++ ys) ≡ entries xs ++ entries ys
unfolding entries
entries-append [] ys = refl
entries-append (x ∷ xs) ys = elim (Bool-cases (is_empty (trim_space x))) [
  | inl e ↦ rw (e, entries-append xs ys) refl
  | inr e ↦ rw (e, entries-append xs ys) refl
]

chain-append :
    (xs ys : List Bytes) → forwarded_chain (xs ++ ys) ≡ forwarded_chain xs ++ forwarded_chain ys
unfolding forwarded_chain
chain-append [] ys = refl
chain-append (x ∷ xs) ys =
    ap (λ c. entries (split b',' x) ++ c) (chain-append xs ys)
    ∙ sym (append_assoc (entries (split b',' x)) (forwarded_chain xs) (forwarded_chain ys))

-- A proxy that appends to the last header line appends to the chain.
pub chain-longer :
    (lines : List Bytes) (given ours : Bytes)
    → forwarded_chain (lines ++ (given ++ b',' ∷ ours) ∷ [])
      ≡ forwarded_chain (lines ++ given ∷ []) ++ entries (split b',' ours)
unfolding forwarded_chain
chain-longer lines given ours =
    chain-append lines _
    ∙ ap (λ c. forwarded_chain lines ++ c)
        (append-nil _
          ∙ ap entries (split-join b',' given ours)
          ∙ entries-append (split b',' given) (split b',' ours)
          ∙ ap (λ c. c ++ entries (split b',' ours)) (sym (append-nil _)))
    ∙ sym (append_assoc (forwarded_chain lines) _ _)
    ∙ ap (λ c. c ++ entries (split b',' ours)) (sym (chain-append lines (given ∷ [])))

reverse_aux-append :
    {A : Type 0} (xs ys acc : List A)
    → reverse_aux (xs ++ ys) acc ≡ reverse_aux ys (reverse_aux xs acc)
reverse_aux-append [] ys acc = refl
reverse_aux-append (x ∷ xs) ys acc = reverse_aux-append xs ys (x ∷ acc)

reverse_aux-onto : {A : Type 0} (xs ys : List A) → reverse_aux xs ys ≡ reverse xs ++ ys
reverse_aux-onto [] ys = refl
reverse_aux-onto (x ∷ xs) ys =
    reverse_aux-onto xs (x ∷ ys)
    ∙ sym (append_assoc (reverse xs) (x ∷ []) ys)
    ∙ ap (λ zs. zs ++ ys) (sym (reverse_aux-onto xs (x ∷ [])))

module _ (parse_addr : Bytes → Option Addr) (res : ClientIpResolver) where
  -- An entry that a trusted proxy has.
  abbrev pub IsHop : Bytes → Type 0
  IsHop e = (a : Addr) × (parse_client_addr parse_addr e ≡ some a) × (is_trusted res a ≡ true)

  scan-hops :
      (peer : Addr) (hops acc : List Bytes)
      → All IsHop hops
      → scan parse_addr res peer (reverse_aux hops acc) ≡ scan parse_addr res peer acc
  unfolding scan
  scan-hops peer [] acc h = refl
  scan-hops peer (e ∷ hops) acc ((a, reads, trusted), h) =
      ground (arith, scan-hops peer hops (e ∷ acc) h)

  scan-answer :
      (peer addr : Addr) (e : Bytes) (before hops : List Bytes)
      → parse_client_addr parse_addr e ≡ some addr
      → is_trusted res addr ≡ false
      → All IsHop hops
      → scan parse_addr res peer (reverse (before ++ e ∷ hops)) ≡ addr
  unfolding scan
  scan-answer peer addr e before hops reads foreign h =
      ap (scan parse_addr res peer) (reverse_aux-append before (e ∷ hops) [])
      ∙ scan-hops peer hops (e ∷ reverse before) h
      ∙ ground (arith, reads, foreign)

  module _ (split_host_port : Bytes → Option (Bytes × Bytes)) where
    -- Behind a trusted peer, what the own proxies appended to the last header line decides: the first
    -- address from the right that is not theirs is the answer, whatever the header lines and the part
    -- of the last line to its left say.
    pub client_ip-appended :
        (remote : Bytes) (peer addr : Addr) (lines : List Bytes) (forged ours e : Bytes)
        (hops : List Bytes)
        → parse_client_addr parse_addr (host_only split_host_port remote) ≡ some peer
        → is_trusted res peer ≡ true
        → entries (split b',' ours) ≡ e ∷ hops
        → parse_client_addr parse_addr e ≡ some addr
        → is_trusted res addr ≡ false
        → All IsHop hops
        → client_ip parse_addr split_host_port res remote (lines ++ (forged ++ b',' ∷ ours) ∷ [])
          ≡ some addr
    unfolding client_ip
    client_ip-appended remote peer addr lines forged ours e hops from trusted appended reads foreign
          h =
        ground (
          arith,
          ap (λ c. scan parse_addr res peer (reverse c))
              (chain-longer lines forged ours
                ∙ ap (λ c. forwarded_chain (lines ++ forged ∷ []) ++ c) appended),
          scan-answer peer addr e (forwarded_chain (lines ++ forged ∷ [])) hops reads foreign h,
        )

    -- Where an answer comes from: an entry of the chain to the right of which all are proxies.
    abbrev pub FromEntry : List Bytes → Addr → Type 0
    FromEntry chain a =
        (before : List Bytes) × (e : Bytes) × (hops : List Bytes) × (chain ≡ before ++ e ∷ hops)
        × (parse_client_addr parse_addr e ≡ some a)
        × (is_trusted res a ≡ false)
        × All IsHop hops

    scan-source :
        (peer : Addr) (es hops : List Bytes)
        → All IsHop hops
        → (scan parse_addr res peer es ≡ peer)
          ⊎ FromEntry (reverse_aux es hops) (scan parse_addr res peer es)
    unfolding scan
    scan-source peer [] hops h = inl refl
    scan-source peer (e ∷ es) hops h = elim (Option-cases (parse_client_addr parse_addr e)) [
      | inl garbage ↦ inl (ground arith)
      | inr found ↦ elim (Bool-cases (is_trusted res found.0)) [
        | inl hop ↦
            let on : scan parse_addr res peer es ≡ scan parse_addr res peer (e ∷ es) =
              ground arith in
            subst (λ a. (a ≡ peer) ⊎ FromEntry (reverse_aux es (e ∷ hops)) a) on
              (scan-source peer es (e ∷ hops) ((found.0, found.1, hop), h))
        | inr foreign ↦
            inr (reverse es, e, hops, reverse_aux-onto es (e ∷ hops), ground arith, ground arith, h)
      ]
    ]

    -- The answer is the peer's own address, or the address of an entry that a trusted peer forwards:
    -- one that is no proxy's, while every entry to its right is a proxy's. From a peer that is not
    -- trusted it is the peer's, whatever the header says.
    pub client_ip-source :
        (remote : Bytes) (a : Addr) (lines : List Bytes)
        → client_ip parse_addr split_host_port res remote lines ≡ some a
        → (parse_client_addr parse_addr (host_only split_host_port remote) ≡ some a)
          ⊎ (((peer : Addr) × (parse_client_addr parse_addr (host_only split_host_port remote)
                  ≡ some peer)
                × (is_trusted res peer ≡ true))
              × FromEntry (forwarded_chain lines) a)
    unfolding client_ip
    client_ip-source remote a lines h =
        elim (Option-cases (parse_client_addr parse_addr (host_only split_host_port remote))) [
          | inl none_ ↦ ground arith
          | inr found ↦ elim (Bool-cases (is_trusted res found.0)) [
            | inr foreign ↦ inl (ground arith)
            | inl hop ↦
                let chain = forwarded_chain lines in
                let answer : scan parse_addr res found.0 (reverse chain) ≡ a = ground arith in
                elim (scan-source found.0 (reverse chain) [] tt) [
                  | inl same ↦ inl (ground arith)
                  | inr other ↦ inr (
                    (found.0, found.1, hop),
                    subst (λ x. FromEntry x a) (reverse-reverse chain)
                        (subst (FromEntry (reverse (reverse chain))) answer other),
                  )
                ]
          ]
        ]
