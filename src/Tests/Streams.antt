-- ===== src/Tests/Streams.antt =====
-- Numbers in streams.
use sqnim.Blob.Grow.{new_blob-IsValid}
use sqnim.Blob.{Blob, new_blob}
use sqnim.Prelude.Int.{ℤ, pos, negsuc}
use sqnim.Prelude.{◌≡◌, refl, [], some, true, arith}
use sqnim.Stream.Numbers.{stream_readn-stream_writen}
use sqnim.Stream.{Scalars, shape, integer, stream_readn, stream_writen}

abbrev scalars : Scalars ℤ
scalars = record {
  as_int = λ v. v;
  of_int = λ i. i;
  float_bytes = λ n v. [];
  of_float_bytes = λ n l. pos 0;
}

int_shape : shape 0x69 ≡ some (integer true 4)
unfolding shape
int_shape = refl

-- four bytes, in a blob of two
stream_readn-stream_writen_example :
    (b' : Blob) × (stream_writen scalars 0x69 (negsuc 4) (new_blob 2) ≡ some b')
    × ((stream_readn scalars 0x69 (record b' { ptr = (new_blob 2).ptr })).1 ≡ some (negsuc 4))
stream_readn-stream_writen_example =
    stream_readn-stream_writen scalars 0x69 true 4 (negsuc 4) (new_blob 2) int_shape (omega arith)
      (new_blob-IsValid 2)
