-- ===== src/Author/Request/Cmdline.antt =====
-- The buffer of `eval_args`, which has as many bytes as the whole packet.
use soteria_tacacs.Prelude.{
  ℕ, ◌+◌, ◌≤◌, List, [], ◌∷◌, arith, length, take, drop, length-append, length-drop, length-take,
  sum,
}
use soteria_tacacs.Protocol.{hdr_size, byte_at, Pak}
use soteria_tacacs.Validate.{author_req_size, author_fixed_len}
use soteria_tacacs.Validate.Loop.{args_len, sum-take-drop}
use soteria_tacacs.Author.Request.{
  split_args, read_author, Command, eval_arg, eval_args, no_command,
}

-- the bytes that the arguments have together
abbrev pub args_size : List (List ℕ) → ℕ
args_size [] = 0
args_size (a ∷ args) = length a + args_size args

-- An argument lengthens the command line by no more than its own length.
length-eval_arg :
    (c : Command) (a : List ℕ) → length (eval_arg c a).cmdline ≤ length c.cmdline + length a
unfolding eval_arg
length-eval_arg c a = ground (
  arith,
  length-append c.cmdline (drop 4 a),
  length-append c.cmdline (b' ' ∷ drop 8 a),
  length-drop 4 a,
  length-drop 8 a,
)

pub length-eval_args :
    (c : Command) (args : List (List ℕ))
    → length (eval_args c args).cmdline ≤ length c.cmdline + args_size args
unfolding eval_args
length-eval_args c [] = omega arith
length-eval_args c (a ∷ args) =
    omega (arith, length-eval_arg c a, length-eval_args (eval_arg c a) args)

args_size-split_args : (sizes p : List ℕ) → args_size (split_args sizes p) ≤ sum sizes
unfolding split_args
args_size-split_args [] p = omega arith
args_size-split_args (l ∷ sizes) p =
    omega (arith, length-take l p, args_size-split_args sizes (drop l p))

-- What `eval_args` writes into its buffer, the final zero byte included, fits the packet's length
-- if the lengths that the packet declares do.
pub cmdline_fits :
    (pak : Pak)
    → author_fixed_len pak.payload + args_len pak.payload author_req_size 0 (byte_at pak.payload 7)
      ≤ pak.hdr.datalength
    → length (eval_args no_command (read_author pak.payload).args).cmdline + 1
      ≤ hdr_size + pak.hdr.datalength
unfolding read_author
cmdline_fits pak h =
    let p = pak.payload in
    let sizes = take (byte_at p 7) (drop author_req_size p) in
    omega (
      arith,
      length-eval_args no_command (read_author p).args,
      sum-take-drop p author_req_size 0 (byte_at p 7),
      args_size-split_args sizes,
    )
