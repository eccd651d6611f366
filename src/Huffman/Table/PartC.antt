-- ===== src/Huffman/Table/PartC.antt =====
-- Statements of `Huff_InitTree` of src/huffman.c, from line 1306 to line 1885.
use co_d4x_client_pub.Common.{List, [], ◌∷◌}
use co_d4x_client_pub.Huffman.Table.{
  Step, Step.left_to, Step.name, Step.parent_left, Step.parent_right, Step.parent_to, Step.right_to,
  Step.weigh,
}

abbrev pub steps9 : List Step
steps9 =
    weigh 169 3693
    ∷ name 169 168
    ∷ parent_to 170 258
    ∷ weigh 170 2436
    ∷ name 170 169
    ∷ parent_right 171 396
    ∷ weigh 171 4935
    ∷ name 171 170
    ∷ parent_left 172 338
    ∷ weigh 172 3017
    ∷ name 172 171
    ∷ parent_right 173 359
    ∷ weigh 173 3538
    ∷ name 173 172
    ∷ parent_left 174 407
    ∷ weigh 174 5688
    ∷ name 174 173
    ∷ parent_right 175 355
    ∷ weigh 175 3444
    ∷ name 175 174
    ∷ parent_right 176 354
    ∷ weigh 176 3410
    ∷ name 176 175
    ∷ right_to 444 386
    ∷ parent_to 177 386
    ∷ weigh 177 9170
    ∷ name 177 176
    ∷ parent_right 178 391
    ∷ weigh 178 4708
    ∷ name 178 177
    ∷ parent_left 179 355
    ∷ weigh 179 3425
    ∷ name 179 178
    ∷ left_to 351 270
    ∷ parent_to 180 270
    ∷ weigh 180 3273
    ∷ name 180 179
    ∷ parent_right 181 364
    ∷ weigh 181 3684
    ∷ name 181 180
    ∷ parent_right 182 385
    ∷ weigh 182 4564
    ∷ name 182 181
    ∷ right_to 425 356
    ∷ parent_to 183 356
    ∷ weigh 183 6957
    ∷ name 183 182
    ∷ parent_left 184 393
    ∷ weigh 184 4817
    ∷ name 184 183
    ∷ parent_right 185 400
    ∷ weigh 185 5224
    ∷ name 185 184
    ∷ parent_left 186 351
    ∷ weigh 186 3285
    ∷ name 186 185
    ∷ parent_right 187 345
    ∷ weigh 187 3143
    ∷ name 187 186
    ∷ parent_right 188 378
    ∷ weigh 188 4227
    ∷ name 188 187
    ∷ parent_right 189 406
    ∷ weigh 189 5630
    ∷ name 189 188
    ∷ parent_right 190 413
    ∷ weigh 190 6053
    ∷ name 190 189
    ∷ parent_left 191 409
    ∷ weigh 191 5851
    ∷ name 191 190
    ∷ parent_right 192 420
    ∷ weigh 192 6507
    ∷ name 192 191
    ∷ parent_left 193 464
    ∷ weigh 193 13692
    ∷ name 193 192
    ∷ left_to 439 376
    ∷ parent_to 194 376
    ∷ weigh 194 8270
    ∷ name 194 193
    ∷ parent_to 195 376
    ∷ weigh 195 8260
    ∷ name 195 194
    ∷ left_to 406 329
    ∷ parent_to 196 329
    ∷ weigh 196 5583
    ∷ name 196 195
    ∷ left_to 432 366
    ∷ parent_to 197 366
    ∷ weigh 197 7568
    ∷ name 197 196
    ∷ parent_left 198 375
    ∷ weigh 198 4082
    ∷ name 198 197
    ∷ parent_right 199 372
    ∷ weigh 199 3984
    ∷ name 199 198
    ∷ parent_left 200 386
    ∷ weigh 200 4574
    ∷ name 200 199
    ∷ parent_right 201 419
    ∷ weigh 201 6440
    ∷ name 201 200
    ∷ right_to 358 280
    ∷ parent_to 202 280
    ∷ weigh 202 3533
    ∷ name 202 201
    ∷ right_to 335 263
    ∷ parent_to 203 263
    ∷ weigh 203 2992
    ∷ name 203 202
    ∷ parent_left 204 325
    ∷ weigh 204 2708
    ∷ name 204 203
    ∷ parent_left 205 400
    ∷ weigh 205 5190
    ∷ name 205 204
    ∷ right_to 370 288
    ∷ parent_to 206 288
    ∷ weigh 206 3889
    ∷ name 206 205
    ∷ parent_right 207 366
    ∷ weigh 207 3799
    ∷ name 207 206
    ∷ parent_left 208 387
    ∷ weigh 208 4582
    ∷ name 208 207
    ∷ left_to 413 338
    ∷ parent_to 209 338
    ∷ weigh 209 6020
    ∷ name 209 208
    ∷ parent_left 210 356
    ∷ weigh 210 3464
    ∷ name 210 209
    ∷ right_to 382 301
    ∷ parent_to 211 301
    ∷ weigh 211 4431
    ∷ name 211 210
    ∷ parent_left 212 357
    ∷ weigh 212 3495
    ∷ name 212 211
    ∷ parent_right 213 335
    ∷ weigh 213 2906
    ∷ name 213 212
    ∷ []

abbrev pub steps10 : List Step
steps10 =
    parent_left 214 258
    ∷ weigh 214 2243
    ∷ name 214 213
    ∷ right_to 368 286
    ∷ parent_to 215 286
    ∷ weigh 215 3856
    ∷ name 215 214
    ∷ parent_left 216 352
    ∷ weigh 216 3321
    ∷ name 216 215
    ∷ right_to 441 381
    ∷ parent_to 217 381
    ∷ weigh 217 8759
    ∷ name 217 216
    ∷ parent_left 218 371
    ∷ weigh 218 3928
    ∷ name 218 217
    ∷ parent_right 219 332
    ∷ weigh 219 2905
    ∷ name 219 218
    ∷ parent_left 220 370
    ∷ weigh 220 3875
    ∷ name 220 219
    ∷ parent_left 221 381
    ∷ weigh 221 4382
    ∷ name 221 220
    ∷ parent_right 222 370
    ∷ weigh 222 3885
    ∷ name 222 221
    ∷ parent_right 223 409
    ∷ weigh 223 5869
    ∷ name 223 222
    ∷ left_to 417 345
    ∷ parent_to 224 345
    ∷ weigh 224 6235
    ∷ name 224 223
    ∷ parent_left 225 453
    ∷ weigh 225 10685
    ∷ name 225 224
    ∷ parent_right 226 382
    ∷ weigh 226 4433
    ∷ name 226 225
    ∷ parent_right 227 387
    ∷ weigh 227 4639
    ∷ name 227 226
    ∷ parent_right 228 379
    ∷ weigh 228 4305
    ∷ name 228 227
    ∷ left_to 390 310
    ∷ parent_to 229 310
    ∷ weigh 229 4683
    ∷ name 229 228
    ∷ parent_left 230 332
    ∷ weigh 230 2849
    ∷ name 230 229
    ∷ parent_left 231 353
    ∷ weigh 231 3379
    ∷ name 231 230
    ∷ parent_to 232 310
    ∷ weigh 232 4683
    ∷ name 232 231
    ∷ parent_left 233 404
    ∷ weigh 233 5477
    ∷ name 233 232
    ∷ parent_left 234 377
    ∷ weigh 234 4127
    ∷ name 234 233
    ∷ parent_right 235 368
    ∷ weigh 235 3853
    ∷ name 235 234
    ∷ parent_right 236 358
    ∷ weigh 236 3515
    ∷ name 236 235
    ∷ parent_right 237 395
    ∷ weigh 237 4913
    ∷ name 237 236
    ∷ parent_right 238 360
    ∷ weigh 238 3601
    ∷ name 238 237
    ∷ parent_left 239 401
    ∷ weigh 239 5237
    ∷ name 239 238
    ∷ left_to 421 351
    ∷ parent_to 240 351
    ∷ weigh 240 6617
    ∷ name 240 239
    ∷ right_to 443 384
    ∷ parent_to 241 384
    ∷ weigh 241 9019
    ∷ name 241 240
    ∷ parent_left 242 395
    ∷ weigh 242 4857
    ∷ name 242 241
    ∷ parent_right 243 375
    ∷ weigh 243 4112
    ∷ name 243 242
    ∷ parent_right 244 399
    ∷ weigh 244 5180
    ∷ name 244 243
    ∷ parent_right 245 412
    ∷ weigh 245 5998
    ∷ name 245 244
    ∷ parent_left 246 396
    ∷ weigh 246 4925
    ∷ name 246 245
    ∷ parent_left 247 397
    ∷ weigh 247 4986
    ∷ name 247 246
    ∷ parent_right 248 418
    ∷ weigh 248 6365
    ∷ name 248 247
    ∷ right_to 436 372
    ∷ parent_to 249 372
    ∷ weigh 249 7930
    ∷ name 249 248
    ∷ parent_left 250 412
    ∷ weigh 250 5948
    ∷ name 250 249
    ∷ right_to 437 374
    ∷ parent_to 251 374
    ∷ weigh 251 8085
    ∷ name 251 250
    ∷ parent_left 252 435
    ∷ weigh 252 7732
    ∷ name 252 251
    ∷ right_to 440 379
    ∷ parent_to 253 379
    ∷ weigh 253 8643
    ∷ name 253 252
    ∷ parent_left 254 443
    ∷ weigh 254 8901
    ∷ name 254 253
    ∷ left_to 448 393
    ∷ parent_to 255 393
    ∷ weigh 255 9653
    ∷ name 255 254
    ∷ left_to 492 472
    ∷ parent_to 256 472
    ∷ weigh 256 32647
    ∷ name 256 255
    ∷ parent_to 257 258
    ∷ weigh 257 2243
    ∷ name 257 257
    ∷ parent_right 258 389
    ∷ weigh 258 4679
    ∷ []

abbrev pub steps11 : List Step
steps11 =
    name 258 257
    ∷ parent_left 259 402
    ∷ weigh 259 5284
    ∷ name 259 257
    ∷ parent_left 260 406
    ∷ weigh 260 5563
    ∷ name 260 257
    ∷ left_to 408 332
    ∷ parent_to 261 332
    ∷ weigh 261 5728
    ∷ name 261 257
    ∷ parent_to 262 332
    ∷ weigh 262 5791
    ∷ name 262 257
    ∷ parent_left 263 410
    ∷ weigh 263 5898
    ∷ name 263 257
    ∷ parent_left 264 413
    ∷ weigh 264 6013
    ∷ name 264 257
    ∷ parent_left 265 415
    ∷ weigh 265 6147
    ∷ name 265 257
    ∷ parent_right 266 416
    ∷ weigh 266 6209
    ∷ name 266 257
    ∷ parent_left 267 417
    ∷ weigh 267 6270
    ∷ name 267 257
    ∷ parent_left 268 418
    ∷ weigh 268 6339
    ∷ name 268 257
    ∷ parent_left 269 420
    ∷ weigh 269 6450
    ∷ name 269 257
    ∷ parent_left 270 421
    ∷ weigh 270 6558
    ∷ name 270 257
    ∷ parent_left 271 422
    ∷ weigh 271 6643
    ∷ name 271 257
    ∷ parent_right 272 422
    ∷ weigh 272 6764
    ∷ name 272 257
    ∷ left_to 423 354
    ∷ parent_to 273 354
    ∷ weigh 273 6803
    ∷ name 273 257
    ∷ parent_to 274 354
    ∷ weigh 274 6824
    ∷ name 274 257
    ∷ left_to 425 355
    ∷ parent_to 275 355
    ∷ weigh 275 6858
    ∷ name 275 257
    ∷ parent_to 276 355
    ∷ weigh 276 6899
    ∷ name 276 257
    ∷ parent_right 277 425
    ∷ weigh 277 6939
    ∷ name 277 257
    ∷ parent_left 278 426
    ∷ weigh 278 6974
    ∷ name 278 257
    ∷ right_to 426 358
    ∷ parent_to 279 358
    ∷ weigh 279 7015
    ∷ name 279 257
    ∷ parent_to 280 358
    ∷ weigh 280 7048
    ∷ name 280 257
    ∷ parent_left 281 428
    ∷ weigh 281 7098
    ∷ name 281 257
    ∷ parent_right 282 428
    ∷ weigh 282 7164
    ∷ name 282 257
    ∷ parent_left 283 431
    ∷ weigh 283 7377
    ∷ name 283 257
    ∷ parent_right 284 431
    ∷ weigh 284 7424
    ∷ name 284 257
    ∷ parent_left 285 432
    ∷ weigh 285 7574
    ∷ name 285 257
    ∷ parent_left 286 434
    ∷ weigh 286 7709
    ∷ name 286 257
    ∷ right_to 435 370
    ∷ parent_to 287 370
    ∷ weigh 287 7753
    ∷ name 287 257
    ∷ parent_to 288 370
    ∷ weigh 288 7774
    ∷ name 288 257
    ∷ parent_left 289 436
    ∷ weigh 289 7817
    ∷ name 289 257
    ∷ parent_right 290 436
    ∷ weigh 290 7985
    ∷ name 290 257
    ∷ parent_right 291 437
    ∷ weigh 291 8057
    ∷ name 291 257
    ∷ left_to 438 375
    ∷ parent_to 292 375
    ∷ weigh 292 8174
    ∷ name 292 257
    ∷ parent_to 293 375
    ∷ weigh 293 8206
    ∷ name 293 257
    ∷ right_to 439 377
    ∷ parent_to 294 377
    ∷ weigh 294 8290
    ∷ name 294 257
    ∷ parent_to 295 377
    ∷ weigh 295 8367
    ∷ name 295 257
    ∷ left_to 440 378
    ∷ parent_to 296 378
    ∷ weigh 296 8408
    ∷ name 296 257
    ∷ parent_to 297 378
    ∷ weigh 297 8519
    ∷ name 297 257
    ∷ parent_right 298 440
    ∷ weigh 298 8647
    ∷ name 298 257
    ∷ parent_right 299 441
    ∷ weigh 299 8727
    ∷ name 299 257
    ∷ left_to 442 382
    ∷ parent_to 300 382
    ∷ weigh 300 8825
    ∷ name 300 257
    ∷ parent_to 301 382
    ∷ weigh 301 8864
    ∷ name 301 257
    ∷ parent_right 302 443
    ∷ weigh 302 8961
    ∷ name 302 257
    ∷ left_to 444 385
    ∷ parent_to 303 385
    ∷ weigh 303 9048
    ∷ []

abbrev pub steps12 : List Step
steps12 =
    name 303 257
    ∷ parent_to 304 385
    ∷ weigh 304 9108
    ∷ name 304 257
    ∷ parent_right 305 444
    ∷ weigh 305 9145
    ∷ name 305 257
    ∷ left_to 445 387
    ∷ parent_to 306 387
    ∷ weigh 306 9177
    ∷ name 306 257
    ∷ parent_to 307 387
    ∷ weigh 307 9287
    ∷ name 307 257
    ∷ parent_right 308 445
    ∷ weigh 308 9307
    ∷ name 308 257
    ∷ right_to 309 258
    ∷ parent_left 309 446
    ∷ weigh 309 9356
    ∷ name 309 257
    ∷ parent_right 310 446
    ∷ weigh 310 9366
    ∷ name 310 257
    ∷ parent_left 311 447
    ∷ weigh 311 9403
    ∷ name 311 257
    ∷ parent_right 312 447
    ∷ weigh 312 9485
    ∷ name 312 257
    ∷ parent_left 313 448
    ∷ weigh 313 9624
    ∷ name 313 257
    ∷ left_to 449 395
    ∷ parent_to 314 395
    ∷ weigh 314 9684
    ∷ name 314 257
    ∷ parent_to 315 395
    ∷ weigh 315 9780
    ∷ name 315 257
    ∷ right_to 449 396
    ∷ parent_to 316 396
    ∷ weigh 316 9854
    ∷ name 316 257
    ∷ parent_to 317 396
    ∷ weigh 317 9915
    ∷ name 317 257
    ∷ left_to 450 397
    ∷ parent_to 318 397
    ∷ weigh 318 9968
    ∷ name 318 257
    ∷ parent_to 319 397
    ∷ weigh 319 9977
    ∷ name 319 257
    ∷ parent_right 320 450
    ∷ weigh 320 10028
    ∷ name 320 257
    ∷ parent_left 321 451
    ∷ weigh 321 10344
    ∷ name 321 257
    ∷ right_to 451 400
    ∷ parent_to 322 400
    ∷ weigh 322 10389
    ∷ name 322 257
    ∷ parent_to 323 400
    ∷ weigh 323 10427
    ∷ name 323 257
    ∷ parent_left 324 452
    ∷ weigh 324 10466
    ∷ name 324 257
    ∷ right_to 452 402
    ∷ parent_to 325 402
    ∷ weigh 325 10581
    ∷ name 325 257
    ∷ parent_to 326 402
    ∷ weigh 326 10656
    ∷ name 326 257
    ∷ right_to 453 404
    ∷ parent_to 327 404
    ∷ weigh 327 10864
    ∷ name 327 257
    ∷ parent_to 328 404
    ∷ weigh 328 11006
    ∷ name 328 257
    ∷ right_to 454 406
    ∷ parent_to 329 406
    ∷ weigh 329 11146
    ∷ name 329 257
    ∷ parent_to 330 406
    ∷ weigh 330 11296
    ∷ name 330 257
    ∷ parent_left 331 455
    ∷ weigh 331 11377
    ∷ name 331 257
    ∷ parent_right 332 455
    ∷ weigh 332 11519
    ∷ name 332 257
    ∷ left_to 456 409
    ∷ parent_to 333 409
    ∷ weigh 333 11658
    ∷ name 333 257
    ∷ parent_to 334 409
    ∷ weigh 334 11735
    ∷ name 334 257
    ∷ parent_right 335 456
    ∷ weigh 335 11779
    ∷ name 335 257
    ∷ right_to 457 412
    ∷ parent_to 336 412
    ∷ weigh 336 11916
    ∷ name 336 257
    ∷ parent_to 337 412
    ∷ weigh 337 11970
    ∷ name 337 257
    ∷ left_to 458 413
    ∷ parent_to 338 413
    ∷ weigh 338 12033
    ∷ name 338 257
    ∷ parent_to 339 413
    ∷ weigh 339 12092
    ∷ name 339 257
    ∷ right_to 458 414
    ∷ parent_to 340 414
    ∷ weigh 340 12153
    ∷ name 340 257
    ∷ parent_to 341 414
    ∷ weigh 341 12195
    ∷ name 341 257
    ∷ left_to 459 415
    ∷ parent_to 342 415
    ∷ weigh 342 12250
    ∷ name 342 257
    ∷ parent_to 343 415
    ∷ weigh 343 12351
    ∷ name 343 257
    ∷ parent_right 344 459
    ∷ weigh 344 12408
    ∷ name 344 257
    ∷ parent_left 345 460
    ∷ weigh 345 12505
    ∷ name 345 257
    ∷ right_to 460 418
    ∷ parent_to 346 418
    ∷ weigh 346 12672
    ∷ name 346 257
    ∷ []
