-- ===== src/Examples/Chain.antt =====
-- A concrete chain: what Solana, the token program and mpl-core do, as far as the runs need it.
use sol_mesh.Base.Words.{of_le_bytes, of_le_bytes-le_bytes}
use sol_mesh.Shared.{key_bytes}
use sol_mesh.Shared.Transfer.{amount_if}
use sol_mesh.Base.{
  ◌&&◌, Option-cases, inl, inr, refl, ◌≢◌, ℕ, ◌+◌, ◌-◌, ◌≡◌, ◌==◌, ltb, leb, List, [], ◌∷◌, ◌++◌,
  Option, none, some, update, bytes_eq, if◌then◌else◌, arith,
}
use sol_mesh.Constants.{config_seed, node_seed, session_seed, fee_vault_seed, vault_seed}
use sol_mesh.Message.Client.{le_borsh}
use sol_mesh.Runtime.{TokenAccount, Chain, Tx, Lamports, Tokens}
use sol_mesh.Runtime.Laws.{SameAccount, IsChain, IsSigned, IsTokenChain, IsTokenPayer, IsKey}

-- The number that the second seed stands for.
abbrev second_seed : List (List ℕ) → ℕ
second_seed [] = 0
second_seed (bytes ∷ rest) = of_le_bytes bytes

-- One address for each kind of seed, and one for each vault authority, all of them 1000 and more.
abbrev pub address_of : List (List ℕ) → ℕ
address_of [] = 1000
address_of (seed ∷ rest) =
    if bytes_eq seed session_seed
    then 1001
    else if bytes_eq seed node_seed
    then 1002
    else if bytes_eq seed config_seed
    then 1003
    else if bytes_eq seed fee_vault_seed
    then 1004
    else if bytes_eq seed vault_seed
    then 2000 + second_seed rest
    else 1005

abbrev pub move_lamports : ℕ → ℕ → ℕ → Lamports → Option Lamports
move_lamports from to amount m =
    if leb amount (m from)
    then (if from == to
        then some m
        else some (update (update m from (m from - amount)) to (m to + amount)))
    else none

abbrev pub rent : ℕ
rent = 100

abbrev add_tokens : ℕ → ℕ → Tokens → Option Tokens
add_tokens to amount t = elim (t to) [
  | none ↦ none
  | some a ↦
      if a.frozen then none else some (update t to (some (record a { amount = a.amount + amount })))
]

abbrev move_tokens : ℕ → ℕ → ℕ → ℕ → Tokens → Option Tokens
move_tokens from to authority amount t = elim (t from) [
  | none ↦ none
  | some a ↦
      if a.frozen
      then none
      else if a.owner == authority && leb amount a.amount
      then add_tokens to amount (update t from (some (record a { amount = a.amount - amount })))
      else none
]

abbrev pub chain : Chain
chain = record {
  borsh = le_borsh;
  program_address = λ seeds. some (address_of seeds);
  find_program_address = λ seeds. (address_of (seeds ++ ((255 ∷ []) ∷ [])), 255);
  system_transfer = move_lamports;
  create_account = λ kind payer new m. move_lamports payer new rent m;
  associated_token = λ mint owner. 3000 + mint + owner;
  is_mint = λ key. key == 20;
  token_transfer = move_tokens;
  core_invoke = λ call seeds m. some m;
}

pub chain-IsChain : IsChain chain
unfolding bytes_eq
chain-IsChain = record {
  found = λ seeds. refl;
  fee_vault_apart = λ rest. apart;
  transferred = λ from to amount m j h. ground arith;
  created = λ kind payer new m j h ne. ground arith;
  invoked = λ call seeds m j h ne. ground arith;
}
  where
    apart : ◌≢◌ {A = Option ℕ} (some 1001) (some 1004)
    apart e = absurd (ground arith)

address_of-vault :
    (j : ℕ)
    → address_of (vault_seed ∷ key_bytes j ∷ [] ++ ((255 ∷ []) ∷ []))
      ≡ 2000 + of_le_bytes (key_bytes j)
unfolding bytes_eq
address_of-vault j = refl

of_le_bytes-key_bytes : (j : ℕ) → IsKey j → of_le_bytes (key_bytes j) ≡ j
unfolding key_bytes
of_le_bytes-key_bytes j h = of_le_bytes-le_bytes 32 j (omega (arith, h))

add_tokens-moved :
    (to amount : ℕ) (t : Tokens) {t' : Tokens} (j : ℕ) (a : TokenAccount)
    → add_tokens to amount t ≡ some t'
    → t j ≡ some a
    → (b : TokenAccount) × (t' j ≡ some b)
      × SameAccount a b
      × (b.amount ≡ a.amount + amount_if j to amount)
      × (b.frozen ≡ a.frozen)
add_tokens-moved to amount t j a h read = elim (Option-cases (t to)) [
  | inl missing ↦ absurd (ground arith)
  | inr (c, found) ↦ (
    record a { amount = a.amount + amount_if j to amount },
    ground arith,
    ground arith,
    ground arith,
    refl,
  )
]

pub chain-IsTokenChain : IsTokenChain chain
unfolding bytes_eq
chain-IsTokenChain = record {
  owned = λ from to authority amount t a seeds h read derived. ground (arith, h, read);
  moved = λ from to authority amount t {t'} j a h read. elim (Option-cases (t from)) [
    | inl missing ↦ absurd (ground arith)
    | inr (c, found) ↦
        let before : update t from (some (record c { amount = c.amount - amount })) j
            ≡ some (record a { amount = a.amount - amount_if j from amount }) =
          ground arith in
        let (b, at_b, same, balance, still) =
          add_tokens-moved to amount
            (update t from (some (record c { amount = c.amount - amount }))) {t' = t'} j
            (record a { amount = a.amount - amount_if j from amount }) (ground arith) before in
        (b, at_b, ground (arith, same), ground (arith, balance), still)
  ];
  session_key = λ rest key h. ground arith;
  vaults_apart = λ j k key_j key_k h.
      omega (arith, of_le_bytes-key_bytes j key_j, of_le_bytes-key_bytes k key_k, h);
}

-- A transaction that the keys under 1000 signed.
pub tx-IsSigned : (tx : Tx) → ((j : ℕ) → tx.is_signer j ≡ ltb j 1000) → IsSigned chain tx
tx-IsSigned tx h seeds key e = ground (arith, h key)

pub chain-IsTokenPayer : IsTokenPayer chain
chain-IsTokenPayer = record {
  pays = λ from to authority amount t a b at_a at_b owned same thawed thawed' cover room.
      let debited : Tokens = update t from (some (record a { amount = a.amount - amount })) in
      elim (Option-cases (add_tokens to amount debited)) [
        | inl failed ↦ absurd (ground arith)
        | inr (t', done) ↦ (t', ground (arith, done))
      ];
}
