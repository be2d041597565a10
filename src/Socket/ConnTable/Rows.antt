-- ===== src/Socket/ConnTable/Rows.antt =====
-- `find_inode_by_conn` of `src/socket/tracker.rs` on the table of the kernel, by its entries.
use proxec.Base.{
  ℕ, zero, suc, ◌^◌, ◌<◌, ◌≡◌, refl, ap, ◌∙◌, Bool, false, not, ◌&&◌, Option, none, some, List, [],
  ◌∷◌, ◌++◌, length, length-append, get_or, ltb, nat_eq, if◌then◌else◌, text_eq, arith,
}
use proxec.Base.Text.{Text, codes, split_whitespace}
use proxec.Net.{IpAddr}
use proxec.Os.{Os}
use proxec.Socket.ConnTable.{find_in_lines, find_inode_by_conn, is_match, addr_pattern}
use proxec.Socket.ConnTable.Pattern.{shown_addr, shown_addr-addr_pattern}

-- A socket of the table: its two addresses, its inode, and the other columns as text.
pub record Entry : Type 0 where
  pub local_ip : ℕ
  pub local_port : ℕ
  pub remote_ip : ℕ
  pub remote_port : ℕ
  pub inode : Text
  pub slot : Text
  pub middle : List Text
  pub after : List Text

-- The columns of its row.
abbrev pub columns : Entry → List Text
columns e =
    e.slot ∷ shown_addr e.local_ip e.local_port ∷ shown_addr e.remote_ip e.remote_port ∷ e.middle
    ++ e.inode ∷ e.after

-- The numbers fit, and six columns stand between the addresses and the inode.
pub record IsEntry (e : Entry) : Type 0 where
  pub local_fits : (e.local_ip < 2 ^ 32) × (e.local_port < 2 ^ 16)
  pub remote_fits : (e.remote_ip < 2 ^ 32) × (e.remote_port < 2 ^ 16)
  pub six : length e.middle ≡ 6

-- The rows that were read are those of the entries, in order.
abbrev pub ShowsRows : List (Option Text) → List Entry → Type 0
ShowsRows [] [] = Unit
ShowsRows [] (e ∷ es) = ⊥
ShowsRows (none ∷ rows) es = ⊥
ShowsRows (some row ∷ rows) [] = ⊥
ShowsRows (some row ∷ rows) (e ∷ es) =
    (split_whitespace row ≡ columns e) × IsEntry e × ShowsRows rows es

-- The entry is the connection's, and has an inode.
abbrev pub is_socket : ℕ → ℕ → ℕ → ℕ → Entry → Bool
is_socket a p b q e =
    (nat_eq e.local_ip a && nat_eq e.local_port p)
    && (nat_eq e.remote_ip b && nat_eq e.remote_port q)
    && not (text_eq e.inode (codes "0"))

-- The inode of the first entry of the connection that has one.
abbrev pub first_inode : ℕ → ℕ → ℕ → ℕ → List Entry → Option Text
first_inode a p b q [] = none
first_inode a p b q (e ∷ es) =
    let later = first_inode a p b q es in if is_socket a p b q e then some e.inode else later

get_or-append :
    (xs : List Text) (y : Text) (ys : List Text) (n : ℕ)
    → length xs ≡ n
    → get_or (xs ++ y ∷ ys) n [] ≡ y
get_or-append [] y ys zero e = refl
get_or-append [] y ys (suc n) e = cc
get_or-append (x ∷ xs) y ys zero e = cc
get_or-append (x ∷ xs) y ys (suc n) e = get_or-append xs y ys n (omega (arith, e))

columns_enough : (e : Entry) → IsEntry e → ltb (length (columns e)) 10 ≡ false
columns_enough e good = ground (arith, length-append e.middle (e.inode ∷ e.after), good.six)

-- What one row adds to the rows behind it, by its columns.
abbrev by_columns : Text → Text → List Text → Option Text → Option Text
by_columns la ra ws later =
    if ltb (length ws) 10 then later else if is_match la ra ws then some (get_or ws 9 []) else later

module _ (a p b q : ℕ) (a_fits : a < 2 ^ 32) (p_fits : p < 2 ^ 16) (b_fits : b < 2 ^ 32)
    (q_fits : q < 2 ^ 16) where
  is_match-columns :
      (e : Entry)
      → IsEntry e
      → is_match (addr_pattern a p) (addr_pattern b q) (columns e) ≡ is_socket a p b q e
  is_match-columns e good =
      let inode : get_or (e.middle ++ e.inode ∷ e.after) 6 [] ≡ e.inode =
        get_or-append e.middle e.inode e.after 6 good.six in
      let local =
        shown_addr-addr_pattern e.local_ip e.local_port a p good.local_fits.0 good.local_fits.1
          a_fits p_fits in
      let remote =
        shown_addr-addr_pattern e.remote_ip e.remote_port b q good.remote_fits.0 good.remote_fits.1
          b_fits q_fits in
      ap
        (λ t.
          t
          && text_eq (shown_addr e.remote_ip e.remote_port) (addr_pattern b q)
          && not (text_eq (get_or (e.middle ++ e.inode ∷ e.after) 6 []) (codes "0")))
        local
      ∙ ap
          (λ t.
            (nat_eq e.local_ip a && nat_eq e.local_port p)
            && t
            && not (text_eq (get_or (e.middle ++ e.inode ∷ e.after) 6 []) (codes "0")))
          remote
      ∙ ap
          (λ i.
            (nat_eq e.local_ip a && nat_eq e.local_port p)
            && (nat_eq e.remote_ip b && nat_eq e.remote_port q)
            && not (text_eq i (codes "0")))
          inode

  find_in_lines-first_inode :
      (rows : List (Option Text)) (es : List Entry)
      → ShowsRows rows es
      → find_in_lines (addr_pattern a p) (addr_pattern b q) rows ≡ first_inode a p b q es
  unfolding find_in_lines
  find_in_lines-first_inode [] [] s = refl
  find_in_lines-first_inode [] (e ∷ es) s = absurd s
  find_in_lines-first_inode (none ∷ rows) es s = absurd s
  find_in_lines-first_inode (some row ∷ rows) [] s = absurd s
  find_in_lines-first_inode (some row ∷ rows) (e ∷ es) (split, good, rest) =
      let la : Text = addr_pattern a p in
      let ra : Text = addr_pattern b q in
      let later : Option Text = find_in_lines la ra rows in
      ap (λ ws. by_columns la ra ws later) split
      ∙ ap
          (λ t.
            if t
            then later
            else if is_match la ra (columns e)
            then some (get_or (columns e) 9 [])
            else later)
          (columns_enough e good)
      ∙ ap (λ t. if t then some (get_or (columns e) 9 []) else later) (is_match-columns e good)
      ∙ ap (λ i. if is_socket a p b q e then some i else later)
          (get_or-append e.middle e.inode e.after 6 good.six)
      ∙ ap (λ l. if is_socket a p b q e then some e.inode else l)
          (find_in_lines-first_inode rows es rest)

  -- On a table that shows the entries, `find_inode_by_conn` gives the inode of the first entry with
  -- the two IPv4 addresses and ports whose inode is not 0, and none if there is no such entry.
  pub find_inode_by_conn-first_inode :
      {W : Type 0} (sys : Os W) (w : W) (header : Option Text) (rows : List (Option Text))
      (es : List Entry)
      → sys.net_tcp w ≡ some (header ∷ rows)
      → ShowsRows rows es
      → find_inode_by_conn sys (IpAddr.v4 a) p (IpAddr.v4 b) q w ≡ first_inode a p b q es
  unfolding find_inode_by_conn
  find_inode_by_conn-first_inode sys w header rows es table s =
      rw (table, find_inode_by_conn) (find_in_lines-first_inode rows es s)
