-- ===== src/Paged/Index/Put/Room.antt =====
-- Where a chain has room for an entry, and what a changed page does to a chain.
use xxfs.Base.{
  ℕ, ◌+◌, ◌≤◌, ◌<◌, ◌≡◌, ◌≢◌, ◌⊎◌, refl, ap, ap₂, List, [], ◌∷◌, ◌++◌, ne→==, ==_refl, update,
}
use xxfs.Paged.Entries.{page_entries, IsChain, chain_entries}
use xxfs.Paged.Page.{Page, slots_per_page, inline_space}

abbrev pub Apart : ℕ → List ℕ → Type 0
Apart t [] = Unit
Apart t (o ∷ offs) = (t ≢ o) × Apart t offs

-- The first page of the chain that is not full has room for the entry in its inline area.
abbrev pub HasRoom : (ℕ → Page) → List ℕ → ℕ → Type 0
HasRoom pages [] need = ⊥
HasRoom pages (o ∷ offs) need =
    ((slots_per_page ≤ (pages o).count) × HasRoom pages offs need)
    ⊎ (((pages o).count < slots_per_page)
        × ((pages o).inline_used + need ≤ inline_space)
        × Apart o offs)

module _ (pages : ℕ → Page) (t : ℕ) (pg : Page) where
  abbrev pub changed : ℕ → Page
  changed = update pages t pg

  pub changed_ne : (o : ℕ) → t ≢ o → changed o ≡ pages o
  changed_ne o ne = rw (ne→== t o ne)

  pub changed_self : changed t ≡ pg
  changed_self = rw (==_refl t)

  pub IsChain-changed :
      (cur : ℕ) (offs : List ℕ) → Apart t offs → IsChain pages cur offs → IsChain changed cur offs
  IsChain-changed cur [] apart chain = chain
  IsChain-changed cur (o ∷ offs) (ne, apart) (at_o, nz, is, wf, chain) =
      let same = changed_ne o ne in
      (at_o, nz, is, rw same wf, rw same (IsChain-changed (pages o).overflow_next offs apart chain))

  pub chain_entries-changed :
      (offs : List ℕ) → Apart t offs → chain_entries changed offs ≡ chain_entries pages offs
  unfolding chain_entries
  chain_entries-changed [] apart = refl
  chain_entries-changed (o ∷ offs) (ne, apart) =
      ap₂ ◌++◌ (ap page_entries (changed_ne o ne)) (chain_entries-changed offs apart)
