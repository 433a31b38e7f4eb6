-- ===== src/Writer/Saved.antt =====
-- The file of a channel behind a flush.
use esconf.Prelude.{
  Text, Bool-cases, bytes, lookup, length, length-append, Bool, true, false, ◌≡◌, ◌≢◌, refl, ap,
  sym, ◌∙◌, ◌⊎◌, inl, inr, Option, none, some, ◌++◌, arith,
}
use esconf.Platform.{Platform, Disk}
use esconf.Error.{write_failure, Reply, ok, err}
use esconf.Tree.{children}
use esconf.Loader.{Channel}
use esconf.Perchannel.{Xbpx}
use esconf.Writer.Flush.{
  save_file, prolog, write_channel, replace_file, flush_opened, flush_found, flush_channel,
}
use esconf.Writer.Laws.{flush_channel-found}

-- The documented behaviour of the file functions: a file that is written holds the text, no other file
-- changes, and a file that is renamed holds what it held.
pub record IsFileSystem (p : Platform) : Type 0 where
  pub written :
      (disk disk' : Disk) (name s : Text)
      → p.write_file disk name s ≡ (true, disk')
      → lookup name disk' ≡ some s
  pub others :
      (disk : Disk) (name other s : Text)
      → name ≢ other
      → lookup other (p.write_file disk name s).1 ≡ lookup other disk
  pub begun :
      (disk : Disk) (name other s : Text)
      → name ≢ other
      → lookup other (p.open_file disk name s).1 ≡ lookup other disk
  pub renamed :
      (disk disk' : Disk) (name other : Text)
      → p.rename disk name other ≡ some disk'
      → lookup other disk' ≡ lookup name disk

-- The new file has another name.
new_name : (filename : Text) → filename ++ bytes ".new" ≢ filename
new_name filename e = omega (arith, length-append filename (bytes ".new"), ap length e)

-- The file is replaced by a complete text, or it is as it was and the caller gets an error.
abbrev pub IsSaved : Text → Text → Bool → Disk → Reply (Unit {0}) × Disk → Type 0
IsSaved filename text complete disk (r, disk') =
    ((complete ≡ true) × (r ≡ ok tt) × (lookup filename disk' ≡ some text))
    ⊎ ((r ≡ err write_failure) × (lookup filename disk' ≡ lookup filename disk))

replace_file-IsSaved :
    (p : Platform) (filename text : Text) (complete : Bool) (disk : Disk) (w : Bool × Disk)
    → IsFileSystem p
    → p.write_file disk (filename ++ bytes ".new") text ≡ w
    → IsSaved filename text complete disk (replace_file p filename complete w)
unfolding replace_file
replace_file-IsSaved p filename text true disk (true, disk') fs e =
    go (p.rename disk' (filename ++ bytes ".new") filename) refl
  where
    go :
        (o : Option Disk)
        → p.rename disk' (filename ++ bytes ".new") filename ≡ o
        → IsSaved filename text true disk (elim o as (λ x. Reply (Unit {0}) × Disk) [
          | some disk'' ↦ (ok tt, disk'')
          | none ↦ (err write_failure, disk')
        ])
    go (some disk'') moved = inl (
      refl,
      refl,
      fs.renamed disk' disk'' (filename ++ bytes ".new") filename moved
          ∙ fs.written disk disk' (filename ++ bytes ".new") text e,
    )
    go none failed = inr (
      refl,
      ap (λ (r : Bool × Disk). lookup filename r.1) (sym e)
          ∙ fs.others disk (filename ++ bytes ".new") filename text (new_name filename),
    )
replace_file-IsSaved p filename text true disk (false, disk') fs e = inr (
  refl,
  ap (λ (r : Bool × Disk). lookup filename r.1) (sym e)
      ∙ fs.others disk (filename ++ bytes ".new") filename text (new_name filename),
)
replace_file-IsSaved p filename text false disk w fs e = inr (
  refl,
  ap (λ (r : Bool × Disk). lookup filename r.1) (sym e)
      ∙ fs.others disk (filename ++ bytes ".new") filename text (new_name filename),
)

-- A flush of a channel of the table replaces its file by the complete text of its tree, or leaves the
-- file as it was and gives a write error.
pub flush_channel-IsSaved :
    (p : Platform) (key : Text) (channel : Channel) (x : Xbpx)
    → IsFileSystem p
    → lookup key x.channels ≡ some channel
    → let text = (write_channel p key (children channel.properties)).0 in
      let (r, x') = flush_channel p key x in
      IsSaved (save_file key x) text.1 text.0 x.disk (r, x'.disk)
unfolding flush_found flush_opened
flush_channel-IsSaved p key channel x fs found = rw (flush_channel-found p key channel x found) (
    let text = (write_channel p key (children channel.properties)).0 in
    elim (Bool-cases (p.open_file x.disk (save_file key x ++ bytes ".new") (prolog key)).0) [
      | inl opened ↦ rw opened (
          replace_file-IsSaved p (save_file key x) text.1 text.0 x.disk
            (p.write_file x.disk (save_file key x ++ bytes ".new") text.1) fs refl)
      | inr failed ↦ rw failed (
          inr (
            refl,
            fs.begun x.disk (save_file key x ++ bytes ".new") (save_file key x) (prolog key)
                (new_name (save_file key x)),
          ))
    ])
